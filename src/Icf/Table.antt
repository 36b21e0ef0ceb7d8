-- ===== src/Icf/Table.antt =====
-- The table of address-significant symbols (peony-layout/src/icf.rs): its length is enough fuel to read it.
use peony.Base.{
  ℕ, zero, suc, ◌+◌, ◌≤◌, ◌<◌, ◌≡◌, refl, ap, Bool, true, false, [], ◌∷◌, Option, none, some,
  none-ne-some, some-injective, if◌then◌else◌, arith, ◌==◌, leb, length, ◌*◌, ◌/◌, ◌%◌, ◌^◌,
}
use peony.Base.Bytes.{Bytes}
use peony.Icf.Taint.{read_uleb128_from, read_uleb128, read_addrsig}
use peony.Object.{InputObject}

-- A number takes a byte at least.
read_uleb128_from-shorter :
    (result shift : ℕ) (bytes : Bytes) (n : ℕ) (rest : Bytes)
    → read_uleb128_from result shift bytes ≡ some (n, rest)
    → length rest < length bytes
unfolding read_uleb128_from
read_uleb128_from-shorter result shift [] n rest e = absurd (none-ne-some _ e)
read_uleb128_from-shorter result shift (byte ∷ bytes) n rest e =
    let next = result + byte % 128 * 2 ^ shift % 2 ^ 64 in
    go next (byte / 128 % 2 == 0) (leb 64 (shift + 7)) e
      (read_uleb128_from-shorter next (shift + 7) bytes n rest)
  where
    go :
        (next : ℕ) (last full : Bool)
        → (if last
            then some (next, bytes)
            else if full
            then none
            else read_uleb128_from next (shift + 7) bytes)
          ≡ some (n, rest)
        → (read_uleb128_from next (shift + 7) bytes ≡ some (n, rest) → length rest < length bytes)
        → length rest < length (byte ∷ bytes)
    go next true full e more =
        let same = ap (λ p. length p.1) (some-injective (next, bytes) (n, rest) e) in omega arith
    go next false true e more = absurd (none-ne-some (n, rest) e)
    go next false false e more = omega (arith, more e)

module _ (obj : InputObject) (obj_id : ℕ) where
  -- More fuel than the table has bytes changes nothing.
  pub read_addrsig_fuel :
      (f g : ℕ) (bytes : Bytes)
      → length bytes ≤ f
      → length bytes ≤ g
      → read_addrsig f obj obj_id bytes ≡ read_addrsig g obj obj_id bytes
  unfolding read_addrsig
  read_addrsig_fuel f g [] h k = refl
  read_addrsig_fuel zero g (byte ∷ bytes) h k = absurd (omega arith)
  read_addrsig_fuel (suc f) zero (byte ∷ bytes) h k = absurd (omega arith)
  read_addrsig_fuel (suc f) (suc g) (byte ∷ bytes) h k =
      go (read_uleb128 (byte ∷ bytes)) refl (read_addrsig_fuel f g)
    where
      go :
          (o : Option (ℕ × Bytes))
          → read_uleb128 (byte ∷ bytes) ≡ o
          → ((rest : Bytes)
              → length rest ≤ f
              → length rest ≤ g
              → read_addrsig f obj obj_id rest ≡ read_addrsig g obj obj_id rest)
          → read_addrsig (suc f) obj obj_id (byte ∷ bytes)
            ≡ read_addrsig (suc g) obj obj_id (byte ∷ bytes)
      go none e more = rw (e, read_addrsig) refl
      go (some (n, rest)) e more =
          let less =
            read_uleb128_from-shorter 0 0 (byte ∷ bytes) n rest (unfold read_uleb128 in e) in
          let same = more rest (omega arith) (omega arith) in rw (e, read_addrsig, same) refl
