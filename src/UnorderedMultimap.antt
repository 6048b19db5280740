-- ===== src/UnorderedMultimap.antt =====
-- `unordered_multimap` of include/ycetl/unordered_multimap.hpp: the tables of Repeats with pairs as entries.
use ycetl.Base.{ℕ, Bool, Option}
use ycetl.Probe.{Hashed, Table}
use ycetl.Probe
use ycetl.Repeats
use ycetl.UnorderedMap.{key_of}

abbrev pub UnorderedMultimap : Type 0 → Type 0 → Type 0
UnorderedMultimap K V = Table (K × V)

module _ {K V : Type 0} where
  unfoldable pub clear : UnorderedMultimap K V → UnorderedMultimap K V
  unfolding Repeats.clear
  clear t = Repeats.clear t

  unfoldable pub begin : UnorderedMultimap K V → Option ℕ
  unfolding Repeats.iterator
  begin t = Repeats.iterator 0 t

  unfoldable pub increment : ℕ → UnorderedMultimap K V → Option ℕ
  unfolding Repeats.increment
  increment i t = Repeats.increment i t

module _ {K V : Type 0} ⦃o : Hashed K⦄ where
  -- `blank` is the entry of a new slot.
  unfoldable pub rehash : K × V → ℕ → UnorderedMultimap K V → Option (UnorderedMultimap K V)
  unfolding Probe.rehash
  rehash blank new_cap t = Probe.rehash key_of blank new_cap t

  unfoldable pub maybe_grow : K × V → UnorderedMultimap K V → Option (UnorderedMultimap K V)
  unfolding Probe.maybe_grow
  maybe_grow blank t = Probe.maybe_grow key_of blank t

  unfoldable pub find : K → UnorderedMultimap K V → Option ℕ
  unfolding Repeats.find
  find k t = Repeats.find key_of k t

  unfoldable pub contains : K → UnorderedMultimap K V → Option Bool
  unfolding Repeats.contains
  contains k t = Repeats.contains key_of k t

  unfoldable pub count : K → UnorderedMultimap K V → Option ℕ
  unfolding Repeats.count
  count k t = Repeats.count key_of k t

  -- With the iterator.
  unfoldable pub insert : K × V → K × V → UnorderedMultimap K V → Option (UnorderedMultimap K V × ℕ)
  unfolding Repeats.insert
  insert blank e t = Repeats.insert key_of blank e t

  -- With the number of entries removed.
  unfoldable pub erase : K → UnorderedMultimap K V → Option (UnorderedMultimap K V × ℕ)
  unfolding Repeats.erase
  erase k t = Repeats.erase key_of k t
