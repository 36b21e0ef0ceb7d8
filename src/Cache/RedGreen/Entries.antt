-- ===== src/Cache/RedGreen/Entries.antt =====
-- What a green section says of the entries that the reverse index was made from (peony-cache/src/lib.rs).
use peony.Base.{
  ℕ, ◌≤◌, ◌<◌, ◌==◌, ◌≡◌, ◌≢◌, ap, sym, ◌∙◌, subst, true, false, ◌⊎◌, inl, inr, List, [], ◌∷◌, some,
  arith, get_elem?, length, Mem, Nodup, Bool-cases, none-ne-some, some-injective, if◌then◌else◌,
}
use peony.Base.Bytes.{Bytes, bytes_eq, bytes_eq_iff}
use peony.Base.Map.{get, insert, bytes_key, get-insert}
use peony.Cache.Index.{RelocReverseIndex, new, insert_all, iter_relocs}
use peony.Cache.Index.Contents.{IsInRange, reloc_ids, relocs_of, iter_relocs-insert_all}
use peony.Cache.Plan.{
  green, Fingerprint, SectionRecord, any_in_section, section_references_moved_checked,
}
use peony.Cache.RedGreen.{
  ManifestFile, decoded, cache_version, Coloring, prev_fps, compute_red_green,
}
use peony.Cache.RedGreen.Green.{compute_red_green-IsKept}

-- The last of the records with the name has the fingerprint.
abbrev pub IsLastOf : Bytes → Fingerprint → List SectionRecord → Type 0
IsLastOf name fp [] = ⊥
IsLastOf name fp (s ∷ records) =
    IsLastOf name fp records
    ⊎ ((s.name ≡ name)
        × (s.fingerprint ≡ fp)
        × ((x : SectionRecord) → Mem x records → x.name ≢ name))

prev_fps-IsLastOf :
    (name : Bytes) (fp : Fingerprint) (records : List SectionRecord)
    (fps : List (Bytes × Fingerprint))
    → get name (prev_fps records fps) ≡ some fp
    → IsLastOf name fp records
      ⊎ (((x : SectionRecord) → Mem x records → x.name ≢ name) × (get name fps ≡ some fp))
unfolding prev_fps
prev_fps-IsLastOf name fp [] fps e = inr (λ x m. absurd m, e)
prev_fps-IsLastOf name fp (s ∷ records) fps e =
    elim (prev_fps-IsLastOf name fp records (insert s.name s.fingerprint fps) e) [
      | inl later ↦ inl (inl later)
      | inr (others, now) ↦
          let read = sym (get-insert s.name name s.fingerprint fps) ∙ now in
          elim (Bool-cases (bytes_eq s.name name)) [
            | inl same ↦ inl (
                inr (
                  (bytes_eq_iff s.name name).0 same,
                  some-injective s.fingerprint fp
                      (sym (ap (λ b. if b then some s.fingerprint else get name fps) same) ∙ read),
                  others,
                ))
            | inr apart ↦ inr (
              λ x m. elim m [
                | inl here ↦ λ bad. absurd (
                    ground
                      (arith, apart, bytes_eq_iff s.name name, subst (λ y. y.name ≡ name) here bad))
                | inr later ↦ others x later
              ],
              sym (ap (λ b. if b then some s.fingerprint else get name fps) apart) ∙ read,
            )
          ]
    ]

any_in_section-none :
    (name : Bytes) (rs : List Bytes) (ids : List ℕ) (r : ℕ)
    → any_in_section name rs ids ≡ false
    → Mem r ids
    → get_elem? rs r ≢ some name
unfolding any_in_section
any_in_section-none name rs [] r h m = absurd m
any_in_section-none name rs (x ∷ ids) r h (inl here) = λ bad.
    let there : get_elem? rs x ≡ some name = subst (λ y. get_elem? rs y ≡ some name) here bad in
    absurd (ground (arith, h, there, bytes_eq_iff name name))
any_in_section-none name rs (x ∷ ids) r h (inr later) =
    any_in_section-none name rs ids r (ground (arith, h)) later

moved-none :
    (name : Bytes) (index : RelocReverseIndex) (rs : List Bytes) (ids : List ℕ) (s r : ℕ)
    → section_references_moved_checked name index rs ids ≡ false
    → Mem s ids
    → Mem r (iter_relocs index s)
    → get_elem? rs r ≢ some name
unfolding section_references_moved_checked
moved-none name index rs [] s r h m k = absurd m
moved-none name index rs (x ∷ ids) s r h (inl here) k =
    any_in_section-none name rs (iter_relocs index x) r (ground (arith, h))
      (subst (λ y. Mem r (iter_relocs index y)) here k)
moved-none name index rs (x ∷ ids) s r h (inr later) k =
    moved-none name index rs ids s r (ground (arith, h)) later k

relocs_of-Mem :
    (s r : ℕ) (entries : List (ℕ × ℕ)) (done : List ℕ)
    → Mem (s, r) entries ⊎ Mem r done
    → Mem r (relocs_of s entries done)
unfolding relocs_of
relocs_of-Mem s r [] done (inl m) = absurd m
relocs_of-Mem s r [] done (inr m) = m
relocs_of-Mem s r ((x, y) ∷ entries) done (inl (inr m)) =
    relocs_of-Mem s r entries (if x == s then y ∷ done else done) (inl m)
relocs_of-Mem s r ((x, y) ∷ entries) done (inl (inl e)) =
    let first : (x == s) ≡ true = ground (arith, e) in
    let second : r ≡ y = ground (arith, e) in
    rw (relocs_of, first) (relocs_of-Mem s r entries (y ∷ done) (inr (inl second)))
relocs_of-Mem s r ((x, y) ∷ entries) done (inr m) = elim (Bool-cases (x == s)) [
  | inl here ↦ rw (relocs_of, here) (relocs_of-Mem s r entries (y ∷ done) (inr (inr m)))
  | inr other ↦ rw (relocs_of, other) (relocs_of-Mem s r entries done (inr m))
]

IsInRange-Mem :
    (symbol_count reloc_count s r : ℕ) (entries : List (ℕ × ℕ))
    → IsInRange symbol_count reloc_count entries
    → Mem (s, r) entries
    → s < symbol_count
IsInRange-Mem symbol_count reloc_count s r [] range m = absurd m
IsInRange-Mem symbol_count reloc_count s r ((x, y) ∷ entries) (small, a, b, range) (inl e) =
    ground (arith, e, small)
IsInRange-Mem symbol_count reloc_count s r ((x, y) ∷ entries) (small, a, b, range) (inr m) =
    IsInRange-Mem symbol_count reloc_count s r entries range m

-- If the reverse index was made by insertions, one after the other, in which every entry names a symbol and a
-- relocation of the index, no relocation is inserted twice and there are no more entries than relocations, then a
-- section that the pass leaves green has a manifest of the cache's version behind it, whose last record of the name
-- has the fingerprint of a current section of the name, and no entry of a moved symbol names a relocation that lies
-- in a section of the name.
pub compute_red_green-green :
    (file : ManifestFile) (sections : List (Bytes × Fingerprint)) (ids : List ℕ)
    (symbol_count reloc_count : ℕ) (entries : List (ℕ × ℕ)) (rs : List Bytes) (coloring : Coloring)
    (name : Bytes)
    → IsInRange symbol_count reloc_count entries
    → Nodup (reloc_ids entries)
    → length entries ≤ reloc_count
    → compute_red_green file sections ids (insert_all (new symbol_count reloc_count) entries) rs
      ≡ some coloring
    → get name coloring ≡ some green
    → ((records : List SectionRecord) × (file ≡ decoded cache_version records)
        × ((fp : Fingerprint) × Mem (name, fp) sections × IsLastOf name fp records))
      × ((s r : ℕ) → Mem s ids → Mem (s, r) entries → get_elem? rs r ≢ some name)
unfolding get
compute_red_green-green file sections ids symbol_count reloc_count entries rs coloring name range
      nodup few e g =
    let index = insert_all (new symbol_count reloc_count) entries in
    let (records, current, (fp, m, there, still)) =
      compute_red_green-IsKept file sections ids index rs coloring name e g in
    (
      (
        records,
        current,
        (
          fp,
          m,
          elim (prev_fps-IsLastOf name fp records [] there) [
            | inl last ↦ last
            | inr (others, bad) ↦ absurd (none-ne-some fp bad)
          ],
        ),
      ),
      λ s r moved entry.
          let chain =
            iter_relocs-insert_all symbol_count reloc_count entries s range nodup few
              (IsInRange-Mem symbol_count reloc_count s r entries range entry) in
          moved-none name index rs ids s r still moved
            (subst (λ rs'. Mem r rs') (sym chain) (relocs_of-Mem s r entries [] (inl entry))),
    )
