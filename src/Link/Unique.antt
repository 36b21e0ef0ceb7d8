-- ===== src/Link/Unique.antt =====
-- A link that succeeds (`Resolver` of peony/src/main.rs) has one strong definition of a name.
use peony.Base.{ℕ, ◌^◌, ◌≤◌, ◌≡◌, sym, ◌∙◌, ap, List, some, some-injective, get_elem?, length}
use peony.Object.{InputObject, InputSymbol}
use peony.Symbols.Resolution.{ok}
use peony.Symbols.Table.{lookup}
use peony.Symbols.Bound.{IsStrong}
use peony.Link.Resolver.{Resolver, start, resolve_objects}
use peony.Link.Strong.{IsVisible, resolve_objects-strong}

-- In a link whose symbol resolution succeeds, with at most 2 ^ 32 objects: two strong definitions of
-- one name, neither of them in a section that is discarded with a COMDAT group, and the name not
-- empty, stand in one object; so that a link with two such objects fails.
pub resolve_objects_unique :
    (objs : List InputObject) (r : Resolver) (i j k l : ℕ) (obj other : InputObject)
    (input again : InputSymbol)
    → resolve_objects start objs ≡ ok r
    → length objs ≤ 2 ^ 32
    → get_elem? objs i ≡ some obj
    → get_elem? obj.symbols j ≡ some input
    → get_elem? objs k ≡ some other
    → get_elem? other.symbols l ≡ some again
    → input.name ≡ again.name
    → IsVisible i input r.excluded
    → IsVisible k again r.excluded
    → IsStrong input
    → IsStrong again
    → i ≡ k
resolve_objects_unique objs r i j k l obj other input again e room at here there too same v w s t =
    let (q, found, bound) = resolve_objects-strong objs r i j obj input e room at here v s in
    let (p, met, kept) = resolve_objects-strong objs r k l other again e room there too w t in
    let one : q ≡ p = some-injective q p (sym found ∙ ap (lookup r.symbols) same ∙ met) in
    some-injective i k (sym bound.defined_in ∙ ap (λ x. x.defined_in) one ∙ kept.defined_in)
