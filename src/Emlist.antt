-- ===== src/Emlist.antt =====
-- The intrusive doubly linked lists of agent/emlist.h, a copy of the Linux kernel's list.h. A list
-- is given by the sequence of entries that `list_for_each_entry` walks from its head. The calls
-- that change a list are parameters, with the documented effect of each on that sequence;
-- `list_empty` and `list_first_entry` read it, and are matches on it in the callers.
use empower_enb_agent.Base.{◌≡◌, refl, List, ◌∷◌, [], ◌++◌}

pub record Emlist : Type 1 where
  -- Insert after the head: the entry becomes the first.
  pub list_add : {A : Type 0} → A → List A → List A
  -- Insert before the head: the entry becomes the last.
  pub list_add_tail : {A : Type 0} → A → List A → List A
  -- Unlink an entry, given those before it and those behind it.
  pub list_del : {A : Type 0} → List A → A → List A → List A
  pub list_add_first : {A : Type 0} (x : A) (xs : List A) → list_add x xs ≡ x ∷ xs
  pub list_add_tail_last : {A : Type 0} (x : A) (xs : List A) → list_add_tail x xs ≡ xs ++ x ∷ []
  pub list_del_unlinks :
      {A : Type 0} (before : List A) (x : A) (after : List A)
      → list_del before x after ≡ before ++ after

-- Sequences themselves meet the documented behaviour.
abbrev pub sequences : Emlist
sequences = record {
  list_add = λ x xs. x ∷ xs;
  list_add_tail = λ x xs. xs ++ x ∷ [];
  list_del = λ before x after. before ++ after;
  list_add_first = λ x xs. refl;
  list_add_tail_last = λ x xs. refl;
  list_del_unlinks = λ before x after. refl;
}
