-- ===== src/Routing/ByList.antt =====
-- An implementation of the interface of `prefix_trie` by a list of its entries.
use mvirt.Prelude.{
  ℕ, ◌-◌, ◌/◌, ◌^◌, Bool, Option, none, some, List, [], ◌∷◌, ◌&&◌, leb, nat_eq, if◌then◌else◌,
}
use mvirt.Routing.Target.{IpNet, PrefixTrie}

unfoldable pub covers : ℕ → IpNet → IpNet → Bool
covers bits wide narrow =
    let shift = 2 ^ (bits - wide.prefix_len) in
    leb wide.prefix_len narrow.prefix_len && nat_eq (wide.addr / shift) (narrow.addr / shift)

unfoldable pub same_net : ℕ → IpNet → IpNet → Bool
unfolding covers
same_net bits a b = covers bits a b && covers bits b a

module _ {V : Type 0} where
  -- The better of two matches is the longer.
  abbrev longer : IpNet × V → Option (IpNet × V) → IpNet × V
  longer found none = found
  longer (p, v) (some (q, w)) = if leb q.prefix_len p.prefix_len then (p, v) else (q, w)

  unfoldable pub longest : ℕ → IpNet → List (IpNet × V) → Option (IpNet × V)
  longest bits net [] = none
  longest bits net ((p, v) ∷ rest) =
      let best = longest bits net rest in
      if covers bits p net then some (longer (p, v) best) else best

  unfoldable pub drop_net : ℕ → IpNet → List (IpNet × V) → List (IpNet × V)
  drop_net bits net [] = []
  drop_net bits net ((p, v) ∷ rest) =
      let others = drop_net bits net rest in if same_net bits p net then others else (p, v) ∷ others

  unfoldable pub exact : ℕ → IpNet → List (IpNet × V) → Option V
  exact bits net [] = none
  exact bits net ((p, v) ∷ rest) = if same_net bits p net then some v else exact bits net rest

abbrev pub by_list : PrefixTrie
by_list = record {
  Map = λ bits V. List (IpNet × V);
  new = λ bits V. [];
  insert = λ bits V m net v. (net, v) ∷ drop_net bits net m;
  remove = λ bits V m net. (exact bits net m, drop_net bits net m);
  get_lpm = λ bits V m net. longest bits net m;
}
