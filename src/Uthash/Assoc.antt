-- ===== src/Uthash/Assoc.antt =====
-- A table that keeps the promises: the list of the items itself.
use aggregator.Base.{refl, List, [], ◌∷◌, ◌++◌}
use aggregator.Uthash.{Item, lookup, erase, Uthash}

abbrev pub assoc : Uthash
assoc = record {
  Table = List Item;
  empty = [];
  find = λ t k. lookup k t;
  add = λ t k p. t ++ (k, p) ∷ [];
  del = λ t p. erase p t;
  items = λ t. t;
  items-empty = refl;
  find-lookup = λ t k. refl;
  items-add = λ t k p absent. refl;
  items-del = λ t k p found. refl;
}
