-- ===== src/Reloc/Slots.antt =====
-- peony-reloc/src/types.rs, `SyntheticSlot` and `RelocScanResult`, and `TlsRef` of
-- peony-layout/src/lib.rs.
pub mod FilterMap
use peony.Base.{
  ℕ, zero, suc, ◌≡◌, refl, sym, ◌∙◌, ap, ◌↔◌, Bool, true, false, ◌||◌, List, [], ◌∷◌, ◌++◌, Option,
  none, some,
}
use peony.Base.Bytes.{Bytes, bytes_eq, bytes_eq_iff}
use peony.Base.Map.{Eq, get, insert}

pub data TlsRef : Type 0 where
  local_ref : ℕ → ℕ → TlsRef
  global_ref : ℕ → TlsRef

pub data SyntheticSlot : Type 0 where
  got plt : ℕ → SyntheticSlot
  tls_gd tls_ie : TlsRef → SyntheticSlot
  tls_ldm : SyntheticSlot
  tls_desc : TlsRef → SyntheticSlot

-- The variant and the fields, which the derived equality compares.
abbrev pub ref_key : TlsRef → Bytes
ref_key (local_ref obj_id sym_pos) = 0 ∷ obj_id ∷ sym_pos ∷ []
ref_key (global_ref id) = 1 ∷ id ∷ []

abbrev pub slot_key : SyntheticSlot → Bytes
slot_key (got id) = 0 ∷ id ∷ []
slot_key (plt id) = 1 ∷ id ∷ []
slot_key (tls_gd r) = 2 ∷ ref_key r
slot_key (tls_ie r) = 3 ∷ ref_key r
slot_key tls_ldm = 4 ∷ []
slot_key (tls_desc r) = 5 ∷ ref_key r

abbrev ref_of_key : Bytes → TlsRef
ref_of_key (zero ∷ obj_id ∷ sym_pos ∷ []) = local_ref obj_id sym_pos
ref_of_key (suc zero ∷ id ∷ []) = global_ref id
ref_of_key _ = global_ref 0

abbrev slot_of_key : Bytes → SyntheticSlot
slot_of_key (zero ∷ id ∷ []) = got id
slot_of_key (suc zero ∷ id ∷ []) = plt id
slot_of_key (suc (suc zero) ∷ r) = tls_gd (ref_of_key r)
slot_of_key (suc (suc (suc zero)) ∷ r) = tls_ie (ref_of_key r)
slot_of_key (suc (suc (suc (suc (suc zero)))) ∷ r) = tls_desc (ref_of_key r)
slot_of_key _ = tls_ldm

ref_of_key-ref_key : (r : TlsRef) → ref_of_key (ref_key r) ≡ r
ref_of_key-ref_key (local_ref o s) = refl
ref_of_key-ref_key (global_ref i) = refl

slot_of_key-slot_key : (s : SyntheticSlot) → slot_of_key (slot_key s) ≡ s
slot_of_key-slot_key (got i) = refl
slot_of_key-slot_key (plt i) = refl
slot_of_key-slot_key (tls_gd r) = ap tls_gd (ref_of_key-ref_key r)
slot_of_key-slot_key (tls_ie r) = ap tls_ie (ref_of_key-ref_key r)
slot_of_key-slot_key tls_ldm = refl
slot_of_key-slot_key (tls_desc r) = ap tls_desc (ref_of_key-ref_key r)

abbrev pub ref_eq : TlsRef → TlsRef → Bool
ref_eq a b = bytes_eq (ref_key a) (ref_key b)

pub ref_eq_iff : (a b : TlsRef) → (ref_eq a b ≡ true) ↔ (a ≡ b)
ref_eq_iff a b = (
  (λ e.
      sym (ref_of_key-ref_key a)
      ∙ ap ref_of_key ((bytes_eq_iff (ref_key a) (ref_key b)).0 e)
      ∙ ref_of_key-ref_key b),
  (λ e. (bytes_eq_iff (ref_key a) (ref_key b)).1 (ap ref_key e)),
)

instance abbrev pub ref_key_eq : Eq TlsRef
ref_key_eq = record { beq = ref_eq; beq_iff = ref_eq_iff }

abbrev pub slot_eq : SyntheticSlot → SyntheticSlot → Bool
slot_eq a b = bytes_eq (slot_key a) (slot_key b)

pub slot_eq_iff : (a b : SyntheticSlot) → (slot_eq a b ≡ true) ↔ (a ≡ b)
slot_eq_iff a b = (
  (λ e.
      sym (slot_of_key-slot_key a)
      ∙ ap slot_of_key ((bytes_eq_iff (slot_key a) (slot_key b)).0 e)
      ∙ slot_of_key-slot_key b),
  (λ e. (bytes_eq_iff (slot_key a) (slot_key b)).1 (ap slot_key e)),
)

instance abbrev pub slot_key_eq : Eq SyntheticSlot
slot_key_eq = record { beq = slot_eq; beq_iff = slot_eq_iff }

-- `slot_set` has the slots as its keys.
pub record RelocScanResult : Type 0 where
  pub slots : List SyntheticSlot
  pub slot_set : List (SyntheticSlot × ℕ)

unfoldable pub no_slots : RelocScanResult
no_slots = record { slots = []; slot_set = [] }

unfoldable pub add : RelocScanResult → SyntheticSlot → RelocScanResult
add r slot = elim (get slot r.slot_set) [
  | some _ ↦ r
  | none ↦ record { slots = r.slots ++ slot ∷ []; slot_set = insert slot 0 r.slot_set }
]

abbrev pub filter_map {ℓ κ} : {A : Type ℓ} {B : Type κ} → (A → Option B) → List A → List B
filter_map f [] = []
filter_map f (x ∷ xs) = elim (f x) [ none ↦ filter_map f xs | some y ↦ y ∷ filter_map f xs ]

abbrev pub as_got : SyntheticSlot → Option ℕ
as_got (got id) = some id
as_got _ = none

abbrev pub as_plt : SyntheticSlot → Option ℕ
as_plt (plt id) = some id
as_plt _ = none

abbrev pub as_tls_gd : SyntheticSlot → Option TlsRef
as_tls_gd (tls_gd r) = some r
as_tls_gd _ = none

abbrev pub as_tls_ie : SyntheticSlot → Option TlsRef
as_tls_ie (tls_ie r) = some r
as_tls_ie _ = none

abbrev pub as_tls_desc : SyntheticSlot → Option TlsRef
as_tls_desc (tls_desc r) = some r
as_tls_desc _ = none

abbrev pub is_tls_ldm : SyntheticSlot → Bool
is_tls_ldm tls_ldm = true
is_tls_ldm _ = false

abbrev any_slot : (SyntheticSlot → Bool) → List SyntheticSlot → Bool
any_slot f [] = false
any_slot f (s ∷ ss) = f s || any_slot f ss

unfoldable pub got_symbols : RelocScanResult → List ℕ
got_symbols r = filter_map as_got r.slots

unfoldable pub plt_symbols : RelocScanResult → List ℕ
plt_symbols r = filter_map as_plt r.slots

unfoldable pub tls_gd_refs : RelocScanResult → List TlsRef
tls_gd_refs r = filter_map as_tls_gd r.slots

unfoldable pub tls_ie_refs : RelocScanResult → List TlsRef
tls_ie_refs r = filter_map as_tls_ie r.slots

unfoldable pub tls_desc_refs : RelocScanResult → List TlsRef
tls_desc_refs r = filter_map as_tls_desc r.slots

unfoldable pub needs_tls_ldm : RelocScanResult → Bool
needs_tls_ldm r = any_slot is_tls_ldm r.slots
