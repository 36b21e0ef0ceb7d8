-- ===== src/Layout/Image/Addresses.antt =====
-- The addresses of the image (peony-layout/src/lib.rs, compute_layout_icf).
use peony.Base.{
  ℕ, ◌+◌, ◌*◌, ◌^◌, ◌≤◌, ◌≡◌, sym, subst, Bool, true, false, inl, inr, List, [], ◌∷◌, ◌++◌, Option,
  some, arith, Mem, Option-cases, get_elem?,
}
use peony.Base.Bytes.{Bytes}
use peony.Base.Map.{get, bytes_key, pair_eq}
use peony.Base.Sort.{sort_unstable_by}
use peony.Layout.Group.{
  Perm, SectionContribution, Builder, SectionFilter, Grouping, align_of, group_input_sections,
}
use peony.Layout.Group.Packed.{All, All-append, IsOrdered, IsPacked, IsPacked-mono}
use peony.Layout.Group.Packed.Grouped.{objects_room, group_input_sections-IsPacked}
use peony.Layout.Image.{Buckets, add_builder, bucket, name_le, arrange_list, lists_of}
use peony.Layout.Place.{OutputSection}
use peony.Layout.Place.Laid.{IsPlaced, IsLaid}
use peony.Layout.Script.{ScriptLayout}
use peony.Layout.Segments.{script_le, sort_builders_by_script, Segments}
use peony.Layout.Segments.Addressed.{segments_room}
use peony.Layout.Segments.Sorted.{All-sort}
use peony.Object.{InputObject, InputSection}

pub All-Mem {ℓ} : {A : Type 0} (P : A → Type ℓ) (x : A) (xs : List A) → All P xs → Mem x xs → P x
All-Mem P x [] h m = elim m [ ]
All-Mem P x (y ∷ xs) (here, h) (inl e) = subst P (sym e) here
All-Mem P x (y ∷ xs) (here, h) (inr m) = All-Mem P x xs h m

pub IsOrdered-Mem :
    (lo hi : ℕ) (c : SectionContribution) (cs : List SectionContribution)
    → IsOrdered lo cs hi
    → Mem c cs
    → c.offset + c.size ≤ hi
IsOrdered-Mem lo hi c [] h m = elim m [ ]
IsOrdered-Mem lo hi c (d ∷ cs) (first, h) (inl e) =
    subst (λ x. x.offset + x.size ≤ hi) (sym e) (below (d.offset + d.size) cs h)
  where
    below : (from : ℕ) (rest : List SectionContribution) → IsOrdered from rest hi → from ≤ hi
    below from [] k = k
    below from (x ∷ rest) (start, k) = let later = below (x.offset + x.size) rest k in omega arith
IsOrdered-Mem lo hi c (d ∷ cs) (first, h) (inr m) = IsOrdered-Mem (d.offset + d.size) hi c cs h m

module _ (objects : List InputObject) where
  IsLaid-le :
      (base lo hi : ℕ) (sections : List OutputSection)
      → IsLaid objects base lo sections hi
      → lo ≤ hi
  IsLaid-le base lo hi [] h = h
  IsLaid-le base lo hi (s ∷ sections) (low, placed, h) =
      let rest = IsLaid-le base (s.sh_addr + s.sh_size) hi sections h in omega arith

  pub IsLaid-Mem :
      (base lo hi : ℕ) (s : OutputSection) (sections : List OutputSection)
      → IsLaid objects base lo sections hi
      → Mem s sections
      → IsPlaced objects base s × (lo ≤ s.sh_addr) × (s.sh_addr + s.sh_size ≤ hi)
  IsLaid-Mem base lo hi s [] h m = elim m [ ]
  IsLaid-Mem base lo hi s (t ∷ sections) (low, placed, h) (inl e) =
      subst (λ x. IsPlaced objects base x × (lo ≤ x.sh_addr) × (x.sh_addr + x.sh_size ≤ hi)) (sym e)
        (placed, low, IsLaid-le base (t.sh_addr + t.sh_size) hi sections h)
  IsLaid-Mem base lo hi s (t ∷ sections) (low, placed, h) (inr m) =
      let (found, above, below) = IsLaid-Mem base (t.sh_addr + t.sh_size) hi s sections h m in
      (found, omega arith, below)

  -- The lists hold packed builders, with no bound on the sizes but the words'.
  abbrev pub ArePacked : Buckets → Type 0
  ArePacked s =
      All (IsPacked objects (2 ^ 64)) s.ro_list
      × All (IsPacked objects (2 ^ 64)) s.rx_list
      × All (IsPacked objects (2 ^ 64)) s.rw_pb
      × All (IsPacked objects (2 ^ 64)) s.rw_bss

  add_builder-ArePacked :
      (perm : Perm) (is_nobits : Bool) (b : Builder) (s : Buckets)
      → IsPacked objects (2 ^ 64) b
      → ArePacked s
      → ArePacked (add_builder perm is_nobits b s)
  unfolding add_builder
  add_builder-ArePacked Perm.ro n b s p (h1, h2, h3, h4) = ((p, h1), h2, h3, h4)
  add_builder-ArePacked Perm.rx n b s p (h1, h2, h3, h4) = (h1, (p, h2), h3, h4)
  add_builder-ArePacked Perm.rw false b s p (h1, h2, h3, h4) = (h1, h2, (p, h3), h4)
  add_builder-ArePacked Perm.rw true b s p (h1, h2, h3, h4) = (h1, h2, h3, (p, h4))

  bucket-ArePacked :
      (order : List Bytes) (builders : List (Bytes × Builder))
      → ((name : Bytes) (b : Builder) → get name builders ≡ some b → IsPacked objects (2 ^ 64) b)
      → ArePacked (bucket order builders)
  unfolding bucket
  bucket-ArePacked [] builders packed = (tt, tt, tt, tt)
  bucket-ArePacked (name ∷ order) builders packed =
      let rest = bucket-ArePacked order builders packed in
      elim (Option-cases (get name builders)) [
        | inl missing ↦ rw (missing, bucket) rest
        | inr (b, found) ↦
            rw (found, bucket)
              (add_builder-ArePacked b.perm b.is_nobits b (bucket order builders)
                (packed name b found) rest)
      ]

  arrange_list-All :
      (script : Option ScriptLayout) (grouped synthetic : List Builder)
      → All (IsPacked objects (2 ^ 64)) grouped
      → All (IsPacked objects (2 ^ 64)) synthetic
      → All (IsPacked objects (2 ^ 64)) (arrange_list script grouped synthetic)
  unfolding arrange_list sort_builders_by_script
  arrange_list-All script grouped synthetic h k =
      All-sort (IsPacked objects (2 ^ 64)) (script_le script)
        (sort_unstable_by name_le grouped ++ synthetic)
        (All-append (IsPacked objects (2 ^ 64)) (sort_unstable_by name_le grouped) synthetic
          (All-sort (IsPacked objects (2 ^ 64)) name_le grouped h) k)

  module _ (base page header_size : ℕ) (script : Option ScriptLayout)
      (fold_map : Option (List ((ℕ × ℕ) × (ℕ × ℕ)))) (synthetic : Buckets) where
    pub lists_of-ArePacked :
        (live : SectionFilter) (g : Grouping)
        → objects_room objects ≤ 2 ^ 64
        → group_input_sections objects live script fold_map ≡ inr g
        → ArePacked synthetic
        → ArePacked (lists_of base page header_size script fold_map synthetic g)
    lists_of-ArePacked live g room e (s1, s2, s3, s4) =
        let (h1, h2, h3, h4) = bucket-ArePacked g.order g.builders (λ name b found.
          IsPacked-mono objects (objects_room objects) (2 ^ 64) b room
            (group_input_sections-IsPacked objects live script fold_map g name b room e found)) in
        (
          arrange_list-All script (bucket g.order g.builders).ro_list synthetic.ro_list h1 s1,
          arrange_list-All script (bucket g.order g.builders).rx_list synthetic.rx_list h2 s2,
          arrange_list-All script (bucket g.order g.builders).rw_pb synthetic.rw_pb h3 s3,
          arrange_list-All script (bucket g.order g.builders).rw_bss synthetic.rw_bss h4 s4,
        )

-- The end of the image at most, from its base.
abbrev pub image_room : ℕ → ℕ → ℕ → Buckets → ℕ
image_room base page header_size lists =
    base + header_size + segments_room page lists.ro_list lists.rx_list lists.rw_pb lists.rw_bss

-- The address is that of an input section, at a multiple of its alignment and inside the image.
abbrev pub IsInImage : List InputObject → ℕ → ℕ → ℕ × ℕ → ℕ → Type 0
IsInImage objects lo hi (object_id, section_index) va =
    (obj : InputObject) × ((sec : InputSection) × (get_elem? objects object_id ≡ some obj)
      × ((pos : ℕ) × (get_elem? obj.sections pos ≡ some sec))
      × (sec.index ≡ section_index)
      × ((q : ℕ) × (va ≡ q * align_of sec))
      × (lo ≤ va)
      × (va + sec.size ≤ hi))
