-- ===== src/Examples/Hashed.antt =====
-- Runs of include/ycetl/unordered_map.hpp and unordered_set.hpp on small tables.
use ycetl.Base.{
  ℕ, zero, suc, ◌+◌, ◌≡◌, refl, sym, Bool, true, false, [], ◌∷◌, Option, none, some, arith, ◌==◌,
  ◌>>=◌, Returns, get_elem?, ◌∙◌, ap,
}
use ycetl.Size.{npos}
use ycetl.Probe.{
  Hashed, Slot, Table, filled, tombstone, is_filled, is_empty, matches, insert_slot, find_slot,
  erase, rehash,
}
use ycetl.Probe
use ycetl.Probe.Erasing.{Drops, erase-Drops}
use ycetl.Probe.Growth.{insert-Stores, insert-lost}
use ycetl.Probe.Inserting.{Stores}
use ycetl.Probe.Rehash.{Rehashed, rehash-Rehashed}
use ycetl.Probe.Scan.{count, first}
use ycetl.Probe.Valid.{stored}
use ycetl.UnorderedMap.{UnorderedMap, key_of, insert_or_assign, subscript}
use ycetl.UnorderedMap.Assign.{Assigns, insert_or_assign-Assigns}
use ycetl.UnorderedMap.Laws.{IsMap}

pub numbers_symm : (a b : ℕ) → a == b ≡ true → b == a ≡ true
numbers_symm a b e = ground arith

pub numbers_trans : (a b c : ℕ) → a == b ≡ true → b == c ≡ true → a == c ≡ true
numbers_trans a b c e e' = ground arith

pub numbers_refl : (a : ℕ) → a == a ≡ true
numbers_refl a = ground arith

pub numbers_eq : (a b : ℕ) → a == b ≡ true → a ≡ b
numbers_eq a b e = ground arith

instance abbrev pub numbers : Hashed ℕ
numbers = record {
  hash = λ a. a;
  equal = λ a b. a == b;
  equal_refl = numbers_refl;
  equal_symm = numbers_symm;
  equal_trans = numbers_trans;
  hash_equal = numbers_eq;
}

-- Two slots: the pair under 3 after a tombstone in its home, slot 1.
abbrev one : UnorderedMap ℕ ℕ
one = record {
  slots =
      record { state = filled; entry = (3, 30) }
      ∷ record { state = tombstone; entry = (1, 10) }
      ∷ [];
  size = 1;
}

-- Two slots, from both of which a pair was erased.
abbrev buried : UnorderedMap ℕ ℕ
buried = record {
  slots =
      record { state = tombstone; entry = (0, 0) }
      ∷ record { state = tombstone; entry = (1, 10) }
      ∷ [];
  size = 0;
}

abbrev state_test : (Slot (ℕ × ℕ) → Bool) → Option (Slot (ℕ × ℕ)) → Bool
state_test p none = false
state_test p (some s) = p s

one-used : (i : ℕ) (s : Slot (ℕ × ℕ)) → get_elem? one.slots i ≡ some s → is_empty s.state ≡ false
one-used zero s at = sym (ap (state_test (λ s. is_empty s.state)) at)
one-used (suc zero) s at = sym (ap (state_test (λ s. is_empty s.state)) at)
one-used (suc (suc i)) s at = absurd (cc at)

one-filled :
    (i : ℕ) (s : Slot (ℕ × ℕ)) → get_elem? one.slots i ≡ some s → is_filled s.state ≡ true → i ≡ 0
one-filled zero s at full = refl
one-filled (suc zero) s at full = absurd (cc (ap (state_test (λ s. is_filled s.state)) at ∙ full))
one-filled (suc (suc i)) s at full = absurd (cc at)

one-IsMap : IsMap one
unfolding count
one-IsMap = record {
  valid = record {
    bound = omega arith;
    reach = λ d p s s' lt before at full at'. one-used _ s' at';
    unique =
        λ i j s s' at at' full full' eq. one-filled i s at full ∙ sym (one-filled j s' at' full');
  };
  size = refl;
}

buried-used :
    (i : ℕ) (s : Slot (ℕ × ℕ)) → get_elem? buried.slots i ≡ some s → is_empty s.state ≡ false
buried-used zero s at = sym (ap (state_test (λ s. is_empty s.state)) at)
buried-used (suc zero) s at = sym (ap (state_test (λ s. is_empty s.state)) at)
buried-used (suc (suc i)) s at = absurd (cc at)

buried-free :
    (i : ℕ) (s : Slot (ℕ × ℕ)) → get_elem? buried.slots i ≡ some s → is_filled s.state ≡ false
buried-free zero s at = sym (ap (state_test (λ s. is_filled s.state)) at)
buried-free (suc zero) s at = sym (ap (state_test (λ s. is_filled s.state)) at)
buried-free (suc (suc i)) s at = absurd (cc at)

buried-IsMap : IsMap buried
unfolding count
buried-IsMap = record {
  valid = record {
    bound = omega arith;
    reach = λ d p s s' lt before at full at'. buried-used _ s' at';
    unique = λ i j s s' at at' full full' eq. absurd (cc (buried-free i s at));
  };
  size = refl;
}

abbrev blank : ℕ × ℕ
blank = (0, 0)

insert-Stores_example : Returns (Probe.insert key_of blank (5, 50) one) (Stores key_of (5, 50) one)
insert-Stores_example =
    insert-Stores key_of blank (5, 50) one one-IsMap (omega arith)
      (λ pos under. absurd (omega arith))

insert-lost_example : Probe.insert key_of blank (5, 50) buried ≡ some (buried, npos, false)
unfolding stored first
insert-lost_example =
    insert-lost key_of blank (5, 50) buried buried-IsMap (omega arith) (omega arith) buried-used
      refl

rehash-Rehashed_example : Returns (rehash key_of blank 4 one) (Rehashed key_of 4 one)
rehash-Rehashed_example = rehash-Rehashed key_of blank 4 one one-IsMap (omega arith) (omega arith)

erase-Drops_example : Returns (Probe.erase key_of 3 one) (Drops key_of 3 one)
erase-Drops_example = erase-Drops key_of 3 one one-IsMap

insert_or_assign-Assigns_example : Returns (insert_or_assign blank 3 31 one) (Assigns 3 31 one)
insert_or_assign-Assigns_example =
    insert_or_assign-Assigns blank 3 31 one one-IsMap (omega arith)
      (λ pos under. absurd (omega arith))

-- Three pairs, an assignment and an erasure, from an empty map.
abbrev session_run : Option (ℕ × ℕ × Bool)
unfolding insert_or_assign Probe.contains Probe.erase subscript
session_run = do
  (t, _, _) ← insert_or_assign blank 3 30 (record { slots = []; size = 0 })
  (t, _, _) ← insert_or_assign blank 11 40 t
  (t, _, _) ← insert_or_assign blank 3 33 t
  (t, _) ← Probe.erase key_of 11 t
  (t, v) ← subscript blank 3 t
  gone ← Probe.contains key_of 11 t
  some (v, t.size, gone)

session : session_run ≡ some (33, 1, false)
unfolding insert_or_assign Probe.contains Probe.erase subscript Probe.maybe_grow Probe.seek_key
    ycetl.Rounds.modulo numbers Probe.fill Probe.insert
session = refl

-- A pair is inserted and erased, under one key after the other.
churn : (rounds k : ℕ) → UnorderedMap ℕ ℕ → Option (UnorderedMap ℕ ℕ)
unfolding Probe.insert Probe.erase
churn zero k t = some t
churn (suc rounds) k t = do
  (t, _, _) ← Probe.insert key_of blank (k, k) t
  (t, _) ← Probe.erase key_of k t
  churn rounds (k + 1) t

-- Eight pairs that came and went leave a map that takes no other key.
abbrev lost_run : Option (ℕ × Bool)
unfolding churn Probe.insert
lost_run = do
  t ← churn 8 0 (record { slots = []; size = 0 })
  (t, _, added) ← Probe.insert key_of blank (8, 8) t
  some (t.size, added)

lost : lost_run ≡ some (0, false)
unfolding churn Probe.erase Probe.maybe_grow Probe.seek_key ycetl.Rounds.modulo Probe.fill
    Probe.insert
lost = refl
