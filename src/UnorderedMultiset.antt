-- ===== src/UnorderedMultiset.antt =====
-- `unordered_multiset` of include/ycetl/unordered_multiset.hpp: the tables of Repeats with keys as entries.
use ycetl.Base.{ℕ, Bool, Option}
use ycetl.Probe.{Hashed, Table}
use ycetl.Probe
use ycetl.Repeats
use ycetl.UnorderedSet.{itself}

abbrev pub UnorderedMultiset : Type 0 → Type 0
UnorderedMultiset K = Table K

module _ {K : Type 0} where
  unfoldable pub clear : UnorderedMultiset K → UnorderedMultiset K
  unfolding Repeats.clear
  clear t = Repeats.clear t

  unfoldable pub begin : UnorderedMultiset K → Option ℕ
  unfolding Repeats.iterator
  begin t = Repeats.iterator 0 t

  unfoldable pub increment : ℕ → UnorderedMultiset K → Option ℕ
  unfolding Repeats.increment
  increment i t = Repeats.increment i t

module _ {K : Type 0} ⦃o : Hashed K⦄ where
  -- `blank` is the entry of a new slot.
  unfoldable pub rehash : K → ℕ → UnorderedMultiset K → Option (UnorderedMultiset K)
  unfolding Probe.rehash
  rehash blank new_cap t = Probe.rehash itself blank new_cap t

  unfoldable pub maybe_grow : K → UnorderedMultiset K → Option (UnorderedMultiset K)
  unfolding Probe.maybe_grow
  maybe_grow blank t = Probe.maybe_grow itself blank t

  unfoldable pub find : K → UnorderedMultiset K → Option ℕ
  unfolding Repeats.find
  find k t = Repeats.find itself k t

  unfoldable pub contains : K → UnorderedMultiset K → Option Bool
  unfolding Repeats.contains
  contains k t = Repeats.contains itself k t

  unfoldable pub count : K → UnorderedMultiset K → Option ℕ
  unfolding Repeats.count
  count k t = Repeats.count itself k t

  -- With the iterator.
  unfoldable pub insert : K → K → UnorderedMultiset K → Option (UnorderedMultiset K × ℕ)
  unfolding Repeats.insert
  insert blank e t = Repeats.insert itself blank e t

  -- With the number of entries removed.
  unfoldable pub erase : K → UnorderedMultiset K → Option (UnorderedMultiset K × ℕ)
  unfolding Repeats.erase
  erase k t = Repeats.erase itself k t
