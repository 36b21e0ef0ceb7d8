-- ===== src/Layout/RelaDyn/Complete.antt =====
-- When `.rela.dyn` (peony-layout/src/lib.rs) is large enough, no relocation is dropped.
use peony.Base.{
  ℕ, ◌+◌, ◌-◌, ◌*◌, ◌^◌, ◌≤◌, ◌<◌, ◌≡◌, refl, sym, ◌∙◌, ap, false, List, [], ◌∷◌, ◌++◌, arith, ltb,
  length, length-append,
}
use mathlib.Core.List.{append-nil, append_assoc}
use peony.Base.Bytes.{Bytes}
use peony.Base.Word.{wrapping_sub}
use peony.Layout.RelaDyn.{
  RelaLayout, rela_size, rela, relative_entry, irelative_entry, tls_entry, symbolic_entry, fill,
  rela_dyn_section_size, append_all_dynamic_relocs, patch_dt_tag, dt_relasz, dt_relacount,
}
use peony.Layout.RelaDyn.Dynamic.{
  dyn_bytes, HaveWords, set_entry, set_entry-HaveWords, patch_dt_tag-set_entry,
}
use peony.Reloc.Tls.{TlsDynReloc}

-- The entries one after the other.
abbrev pub entries {ℓ} : {A : Type ℓ} → (A → Bytes) → List A → Bytes
entries entry [] = []
entries entry (x ∷ xs) = entry x ++ entries entry xs

length-rela : (site info addend : ℕ) → length (rela site info addend) ≡ 24
unfolding rela
length-rela site info addend = refl

module _ {ℓ} {A : Type ℓ} (entry : A → Bytes) (limit : ℕ)
    (size : (x : A) → length (entry x) ≡ 24) where
  fill-entries :
      (bytes : Bytes) (xs : List A)
      → length bytes + 24 * length xs ≤ limit
      → fill entry limit bytes xs ≡ (bytes ++ entries entry xs, length xs)
  unfolding fill
  fill-entries bytes [] h = ap (λ bs. (bs, 0)) (sym (append-nil bytes))
  fill-entries bytes (x ∷ xs) h =
      let more : ltb limit (length bytes + rela_size) ≡ false = ground (arith, h) in
      let longer = length-append bytes (entry x) in
      let rest = fill-entries (bytes ++ entry x) xs (omega (arith, h, longer, size x)) in
      rw (fill, more, rest, append_assoc bytes (entry x) (entries entry xs))
        (ap (λ n. (bytes ++ (entry x ++ entries entry xs), n)) (omega arith))

  length-entries : (xs : List A) → length (entries entry xs) ≡ 24 * length xs
  length-entries [] = refl
  length-entries (x ∷ xs) =
      length-append (entry x) (entries entry xs) ∙ omega (arith, size x, length-entries xs)

module _ (layout : RelaLayout) (relative irelative : List (ℕ × ℕ)) (tls : List TlsDynReloc)
    (symbolic : List (ℕ × ℕ × ℕ)) where
  -- The size of all entries and of the two suffixes.
  abbrev pub needed : ℕ
  needed =
      length layout.dyn_blobs.rela_glob_dat
      + length layout.dyn_blobs.rela_copy
      + 24 * (length relative + length irelative + length tls + length symbolic)

  -- All entries, in the order of the lists, and the two suffixes.
  abbrev pub contents : Bytes
  contents =
      entries relative_entry relative
      ++ entries irelative_entry irelative
      ++ entries tls_entry tls
      ++ entries symbolic_entry symbolic
      ++ layout.dyn_blobs.rela_glob_dat
      ++ layout.dyn_blobs.rela_copy

  pub append_all_dynamic_relocs_patched :
      needed ≤ rela_dyn_section_size layout
      → rela_dyn_section_size layout < 2 ^ 64
      → let out = append_all_dynamic_relocs layout relative irelative tls symbolic in
        (out.dyn_blobs.rela_dyn ≡ contents)
        × (out.dyn_blobs.dynamic
            ≡ patch_dt_tag dt_relasz
                (length contents)
                (patch_dt_tag dt_relacount (length relative) layout.dyn_blobs.dynamic))
  unfolding append_all_dynamic_relocs
  append_all_dynamic_relocs_patched room word =
      let suffix = length layout.dyn_blobs.rela_glob_dat + length layout.dyn_blobs.rela_copy in
      let limit = wrapping_sub (rela_dyn_section_size layout) suffix in
      let exact : limit ≡ rela_dyn_section_size layout - suffix = omega arith in
      let b1 = entries relative_entry relative in
      let b2 = b1 ++ entries irelative_entry irelative in
      let b3 = b2 ++ entries tls_entry tls in
      let s1 = length-entries relative_entry limit (λ (x, v). length-rela x 8 v) relative in
      let s2 = length-entries irelative_entry limit (λ (x, v). length-rela x 37 v) irelative in
      let s3 = length-entries tls_entry limit (λ r. length-rela r.site_va _ r.addend) tls in
      let l2 = length-append b1 (entries irelative_entry irelative) in
      let l3 = length-append b2 (entries tls_entry tls) in
      let one =
        fill-entries relative_entry limit (λ (x, v). length-rela x 8 v) [] relative (omega arith) in
      let two =
        fill-entries irelative_entry limit (λ (x, v). length-rela x 37 v) b1 irelative
          (omega arith) in
      let three =
        fill-entries tls_entry limit (λ r. length-rela r.site_va _ r.addend) b2 tls (omega arith) in
      let four =
        fill-entries symbolic_entry limit (λ (x, d, a). length-rela x _ a) b3 symbolic
          (omega arith) in
      rw (one, two, three, four) (refl, refl)

  -- If the section has the size that all entries and the two suffixes need, below 2^64, they are all there, in order
  -- and with no gap. If `.dynamic` holds entries of a tag, a word, and a value, then after it the first entry
  -- DT_RELACOUNT has the number of relative entries and the first entry DT_RELASZ has the size, where an entry behind
  -- the tag 0 does not count, and all else is as it was.
  pub append_all_dynamic_relocs_lem :
      (tags : List (ℕ × ℕ))
      → HaveWords tags
      → layout.dyn_blobs.dynamic ≡ dyn_bytes tags
      → needed ≤ rela_dyn_section_size layout
      → rela_dyn_section_size layout < 2 ^ 64
      → let out = append_all_dynamic_relocs layout relative irelative tls symbolic in
        (out.dyn_blobs.rela_dyn ≡ contents)
        × (out.dyn_blobs.dynamic
            ≡ dyn_bytes (
                set_entry dt_relasz
                  (length contents)
                  (set_entry dt_relacount (length relative) tags)))
  append_all_dynamic_relocs_lem tags words same room word =
      let (all, patched) = append_all_dynamic_relocs_patched room word in
      let counted = set_entry dt_relacount (length relative) tags in
      (
        all,
        patched
            ∙ ap
                (λ d.
                  patch_dt_tag dt_relasz (length contents)
                    (patch_dt_tag dt_relacount (length relative) d))
                same
            ∙ ap (patch_dt_tag dt_relasz (length contents))
                (patch_dt_tag-set_entry dt_relacount (length relative) tags words)
            ∙ patch_dt_tag-set_entry dt_relasz (length contents) counted
                (set_entry-HaveWords dt_relacount (length relative) tags words),
      )
