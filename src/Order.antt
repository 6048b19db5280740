-- ===== src/Order.antt =====
-- The template parameter `Compare` of the ordered containers of include/ycetl, with what they ask
-- of it: a strict weak order. It is `std::less`, or what the client hands over.
use ycetl.Base.{Bool, true, false, not, ◌&&◌, ◌||◌, ◌≡◌, arith}

pub record Order (K : Type 0) : Type 0 where
  pub less : K → K → Bool
  pub irreflexive : (a : K) → less a a ≡ false
  pub transitive : (a b c : K) → less a b ≡ true → less b c ≡ true → less a c ≡ true
  pub weak : (a b c : K) → less a b ≡ true → (less a c || less c b) ≡ true

module _ {K : Type 0} ⦃o : Order K⦄ where
  -- `_cmp(a, b)`
  abbrev pub less : K → K → Bool
  less a b = o.less a b

  -- Keys neither of which comes first count as one key.
  abbrev pub equivalent : K → K → Bool
  equivalent a b = not (less a b) && not (less b a)

  pub less_asymm : (a b : K) → less a b ≡ true → less b a ≡ false
  less_asymm a b h = ground (arith, o.transitive a b a, o.irreflexive a)

  pub equivalent_refl : (a : K) → equivalent a a ≡ true
  equivalent_refl a = ground (arith, o.irreflexive a)

  pub equivalent_symm : (a b : K) → equivalent a b ≡ equivalent b a
  equivalent_symm a b = ground arith

  -- Equivalent keys compare alike.
  pub less_congr_left : (a b c : K) → equivalent a b ≡ true → less a c ≡ less b c
  less_congr_left a b c h = ground (arith, o.weak a c b, o.weak b c a)

  pub less_congr_right : (a b c : K) → equivalent a b ≡ true → less c a ≡ less c b
  less_congr_right a b c h = ground (arith, o.weak c a b, o.weak c b a)

  pub equivalent_trans : (a b c : K) → equivalent a b ≡ true → equivalent b c ≡ equivalent a c
  equivalent_trans a b c h = ground (arith, less_congr_left a b c h, less_congr_right a b c h)
