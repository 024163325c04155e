-- ===== src/Link/Tests.antt =====
-- Evaluations of the link plane's functions, and its theorems at concrete candidates.
use mathlib.Core.List.Memᴰ
use herbarium.Base.{
  ◌≡◌, ◌⊎◌, refl, inl, inr, true, false, List, [], ◌∷◌, Memᴰ, some, codes, list_eq, nat_eq, sort_by,
  insert_by,
}
use herbarium.Link.{
  ObjectDef, SymbolRow, before, rank, pick_winning_object, collect_losing_objects, losing_objects,
  name_to_id, is_local,
}
use herbarium.Link.Winner.{IsUnbeaten, pick_winning_object_lem, pick_winning_object_order}
use herbarium.Link.Lookup.{names_of, name_to_id_defined}

abbrev weak_b : ObjectDef
weak_b = record { object = codes "b.o"; kind = codes "W" }

abbrev strong_c : ObjectDef
strong_c = record { object = codes "c.o"; kind = codes "T" }

abbrev strong_a : ObjectDef
strong_a = record { object = codes "a.o"; kind = codes "D" }

abbrev candidates : List ObjectDef
candidates = weak_b ∷ strong_c ∷ strong_a ∷ []

winner : pick_winning_object candidates ≡ codes "a.o"
unfolding pick_winning_object before rank sort_by insert_by
winner = refl

losers : collect_losing_objects candidates (codes "a.o") ≡ codes "b.o" ∷ codes "c.o" ∷ []
unfolding collect_losing_objects losing_objects sort_by insert_by
losers = refl

local_data : is_local (record { name = codes "x"; kind = codes "d"; address = []; size = 0 }) ≡ true
unfolding is_local
local_data = refl

pick_winning_object_lem_example :
    (candidates ≡ [] × pick_winning_object candidates ≡ [])
    ⊎ ((c : ObjectDef) × Memᴰ c candidates
        × IsUnbeaten c candidates
        × pick_winning_object candidates ≡ c.object)
pick_winning_object_lem_example = pick_winning_object_lem candidates

pick_winning_object_order_example :
    pick_winning_object (strong_c ∷ []) ≡ pick_winning_object (strong_c ∷ strong_c ∷ [])
pick_winning_object_order_example =
    pick_winning_object_order (strong_c ∷ []) (strong_c ∷ strong_c ∷ [])
      (λ d. (Memᴰ.tail, λ m. elim (Memᴰ.cases_cons m) [ inl e ↦ Memᴰ.head e | inr r ↦ r ]))

abbrev declared : SymbolRow
declared = record {
  id = 1;
  name = codes "f";
  usr = codes "c:a.c@F@f";
  linkage_names = [];
  has_def = false;
}

abbrev defined : SymbolRow
defined = record {
  id = 2;
  name = codes "f";
  usr = codes "c:@F@f";
  linkage_names = codes "f.part.0" ∷ [];
  has_def = true;
}

name_to_id_defined_example :
    (q : SymbolRow) × Memᴰ q (declared ∷ defined ∷ [])
    × Memᴰ (codes "f") (names_of q)
    × (q.has_def ≡ true)
    × (name_to_id (declared ∷ defined ∷ []) (codes "f") ≡ some q.id)
name_to_id_defined_example =
    name_to_id_defined (declared ∷ defined ∷ []) defined (codes "f") (Memᴰ.tail (Memᴰ.head refl))
      refl refl (Memᴰ.head refl)
