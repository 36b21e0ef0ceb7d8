-- ===== src/Examples/Tls.antt =====
-- Runs of the TLS region of the GOT (peony-reloc/src/tls.rs).
use peony.Base.{
  ℕ, ◌≤◌, ◌≡◌, refl, inl, inr, Bool, true, false, List, [], ◌∷◌, Option, none, some, length,
}
use peony.Base.Map.{get}
use peony.Symbols.Table.{new}
use peony.Object.{InputObject, global}
use peony.Reloc.Slots.{TlsRef, local_ref}
use peony.Reloc.Tls.{
  TlsGotInfo, TlsLayout, collect_tls_got, collect_shared, collect_refs, collect_ldm, no_contents,
  push_gd, tls_ref_offset, tls_offset, tls_ref_dynidx, is_imported_ref, count_gd, count_tls_relocs,
}
use peony.Reloc.Tls.Room.{collect_tls_got-count_tls_relocs}
use peony.Examples.Data.{object, symbol, f_name}

-- The section of the symbol 0 is in the TLS block, the section of the symbol 1 is not.
abbrev objects : List InputObject
objects =
    object [] []
      (symbol f_name global false (some 1) 8 ∷ symbol f_name global false (some 2) 0 ∷ [])
    ∷ []

abbrev layout : TlsLayout
layout = record {
  tls_size = 32;
  tls_offsets = ((0, 1), 16) ∷ [];
  tls_gd_addr = (local_ref 0 0, 4096) ∷ (local_ref 0 1, 4112) ∷ [];
  tls_ie_addr = [];
  tls_desc_addr = [];
  tls_ldm_addr = none;
}

abbrev pairs : List TlsRef → TlsGotInfo
pairs refs = record { gd = refs; ie = []; desc = []; ldm = false }

-- A reference into a section that is not in the TLS block gets two relocations and is counted once.
abbrev dropped : TlsGotInfo
dropped = pairs (local_ref 0 1 ∷ [])

dropped_relocs : length (collect_tls_got objects new layout dropped true).relocs ≡ 2
unfolding collect_tls_got collect_shared collect_refs collect_ldm no_contents push_gd tls_ref_offset
    tls_offset tls_ref_dynidx get peony.Base.Bytes.bytes_eq
dropped_relocs = refl

dropped_count : count_tls_relocs new dropped true ≡ 1
unfolding count_tls_relocs count_gd is_imported_ref
dropped_count = refl

collect_tls_got-count_tls_relocs_example :
    length (collect_tls_got objects new layout (pairs (local_ref 0 0 ∷ [])) true).relocs
    ≤ count_tls_relocs new (pairs (local_ref 0 0 ∷ [])) true
collect_tls_got-count_tls_relocs_example =
    collect_tls_got-count_tls_relocs objects new layout (pairs (local_ref 0 0 ∷ [])) true
      (λ _. (inr (24, (unfold tls_ref_offset tls_offset get in refl)), tt)) (λ _ e. cc)
