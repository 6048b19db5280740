-- ===== src/UnorderedSet.antt =====
-- `unordered_set` of include/ycetl/unordered_set.hpp: the tables of Probe with keys as entries. Its
-- loops are those of include/ycetl/unordered_map.hpp, written out again.
pub mod Laws
use ycetl.Base.{ℕ, Bool, Option, ◌>>=◌}
use ycetl.Probe.{Hashed, Table}
use ycetl.Probe
use ycetl.Repeats

abbrev pub UnorderedSet : Type 0 → Type 0
UnorderedSet K = Table K

abbrev pub itself : {K : Type 0} → K → K
itself k = k

module _ {K : Type 0} where
  unfoldable pub clear : UnorderedSet K → UnorderedSet K
  unfolding Repeats.clear
  clear s = Repeats.clear s

  -- An iterator is the index of its slot.
  unfoldable pub begin : UnorderedSet K → Option ℕ
  unfolding Repeats.iterator
  begin s = Repeats.iterator 0 s

  unfoldable pub increment : ℕ → UnorderedSet K → Option ℕ
  unfolding Repeats.increment
  increment i s = Repeats.increment i s

module _ {K : Type 0} ⦃o : Hashed K⦄ where
  unfoldable pub find_slot : K → UnorderedSet K → Option ℕ
  find_slot k s = Probe.find_slot itself k s

  unfoldable pub contains : K → UnorderedSet K → Option Bool
  contains k s = Probe.contains itself k s

  -- The set, the index and whether the key was inserted; `blank` is the key of a new slot.
  unfoldable pub insert : K → K → UnorderedSet K → Option (UnorderedSet K × ℕ × Bool)
  insert blank k s = Probe.insert itself blank k s

  unfoldable pub erase : K → UnorderedSet K → Option (UnorderedSet K × ℕ)
  erase k s = Probe.erase itself k s
