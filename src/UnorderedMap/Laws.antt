-- ===== src/UnorderedMap/Laws.antt =====
-- The operations of include/ycetl/unordered_map.hpp on a map from keys to values.
use ycetl.Base.{
  ◌^◌, ◌<◌, ◌≡◌, refl, ◌∙◌, sym, ap, Bool, true, false, not, ◌&&◌, Option, none, some,
  if◌then◌else◌, ◌>>=◌, Returns, length, is_some,
}
use ycetl.Probe.{Hashed, Slot}
use ycetl.Probe.Inserting.{HasEmpty}
use ycetl.Probe.Growth.{insert-Stores, IsUnderLoad}
use ycetl.Probe.Valid.{IsTable, stored}
use ycetl.UnorderedMap.{UnorderedMap, key_of, subscript, insert}

abbrev pub value_or : {V : Type 0} → V → Option V → V
value_or b none = b
value_or b (some v) = v

module _ {K V : Type 0} ⦃o : Hashed K⦄ where
  abbrev pub IsMap : UnorderedMap K V → Type 0
  IsMap t = IsTable key_of t

  abbrev pub second : Option (Slot (K × V)) → Option V
  second none = none
  second (some s) = some s.entry.1

  -- The reference definition of a lookup: the value in the slot that a scan finds.
  abbrev pub value_in : K → UnorderedMap K V → Option V
  value_in q t = second (stored key_of q t)

  read_back :
      (old : Option (Slot (K × V))) (s f : Slot (K × V)) (b : Bool)
      → b ≡ true
      → some s ≡ (if b && not (is_some old) then some f else old)
      → s.entry.1 ≡ value_or f.entry.1 (second old)
  read_back none s f b t e =
      let e' : some s ≡ some f = rw t at e in ap (λ x. value_or f.entry.1 (second x)) e'
  read_back (some w) s f b t e =
      let e' : some s ≡ some w = rw t at e in ap (λ x. value_or f.entry.1 (second x)) e'

  pub second-if :
      (b : Bool) (old other : Option (Slot (K × V))) (f : Slot (K × V))
      → second (if b && not (is_some old) then some f else other)
        ≡ (if b && not (is_some (second old)) then some f.entry.1 else second other)
  second-if false old other f = refl
  second-if true none other f = refl
  second-if true (some w) other f = refl

  -- On a map of fewer than 2 ^ 57 slots which, if it has slots and is under the load limit, has an
  -- empty one, `operator[]` returns the value under the key, or the blank value, which it then
  -- stores under it, and changes no other value.
  pub subscript-Stores :
      (blank : K × V) (k : K) (t : UnorderedMap K V)
      → IsMap t
      → length t.slots < 2 ^ 57
      → (0 < length t.slots → IsUnderLoad key_of t → HasEmpty key_of t)
      → Returns (subscript blank k t) λ r.
        IsMap r.0
        × (r.1 ≡ value_or blank.1 (value_in k t))
        × ((q : K)
            → value_in q r.0 ≡ (
                if o.equal k q && not (is_some (value_in k t)) then some blank.1 else value_in q t))
  unfolding subscript insert
  subscript-Stores blank k t table small spare =
      let ((t', i, b), run, st) = insert-Stores key_of blank (k, blank.1) t table small spare in
      let (s, at, there) = st.index in
      (
        (t', s.entry.1),
        rw (run, ◌>>=◌, at),
        (
          st.kept,
          read_back (stored key_of k t) s _ (o.equal k k) (o.equal_refl k)
              (sym there ∙ st.values k),
          λ q. ap second (st.values q) ∙ second-if (o.equal k q) _ _ _,
        ),
      )
