-- ===== src/NewsgroupOrder.antt =====
-- The order of the newsgroups: NewsgroupOrder of libtrn/include/trn/ngdata.h and libtrn/ngdata.cpp.
-- A newsgroup is a number that stands for its address; m_prev, m_next and m_num of all groups are
-- functions of it.
pub mod Chain
pub mod Moves
pub mod Reach
use trn.Base.{
  ◌≡◌, ℕ, zero, suc, ◌+◌, ◌-◌, Bool, true, false, Option, none, some, List, [], ◌∷◌, ◌++◌, ltb, leb,
  ◌==◌, if◌then◌else◌, length, take, drop, min,
}
use trn.Base.Int.{ℤ, pos, negsuc}

-- m_prev and m_next.
pub record Links : Type 0 where
  pub m_prev : ℕ → Option ℕ
  pub m_next : ℕ → Option ℕ

pub record NewsgroupOrder : Type 0 where
  pub order : List ℕ
  pub first_newsgroup : Option ℕ
  pub last_newsgroup : Option ℕ
  pub links : Links
  pub m_num : ℕ → ℕ

-- A field of one newsgroup is assigned.
abbrev pub assign {ℓ} : {A : Type ℓ} → ℕ → A → (ℕ → A) → ℕ → A
assign np value field x = if x == np then value else field x

-- The same behind a pointer that may be null.
abbrev pub assign_if {ℓ} : {A : Type ℓ} → Option ℕ → A → (ℕ → A) → ℕ → A
assign_if none value field = field
assign_if (some np) value field = assign np value field

-- `order.front()` and `order.back()`, behind what stands before the order.
abbrev pub first : List ℕ → Option ℕ
first [] = none
first (np ∷ order) = some np

abbrev pub last_of : Option ℕ → List ℕ → Option ℕ
last_of prev [] = prev
last_of prev (np ∷ order) = last_of (some np) order

abbrev pub last : List ℕ → Option ℕ
last order = last_of none order

unfoldable pub clear : NewsgroupOrder → NewsgroupOrder
clear ng = record {
  order = [];
  first_newsgroup = none;
  last_newsgroup = none;
  links = ng.links;
  m_num = ng.m_num;
}

-- The loop of `sync_links` and what follows it.
unfoldable pub sync_loop : Option ℕ → List ℕ → Links → Links
sync_loop prev [] links = record {
  m_prev = links.m_prev;
  m_next = assign_if prev none links.m_next;
}
sync_loop prev (np ∷ order) links = sync_loop (some np) order (record {
  m_prev = assign np prev links.m_prev;
  m_next = assign_if prev (some np) links.m_next;
})

unfoldable pub sync_links : NewsgroupOrder → NewsgroupOrder
sync_links ng = record {
  order = ng.order;
  first_newsgroup = first ng.order;
  last_newsgroup = last ng.order;
  links = sync_loop none ng.order ng.links;
  m_num = ng.m_num;
}

unfoldable pub append : ℕ → NewsgroupOrder → NewsgroupOrder
append np ng = record {
  order = ng.order ++ (np ∷ []);
  first_newsgroup = elim ng.last_newsgroup [ none ↦ some np | some l ↦ ng.first_newsgroup ];
  last_newsgroup = some np;
  links = record {
    m_prev = assign np ng.last_newsgroup ng.links.m_prev;
    m_next = assign_if ng.last_newsgroup (some np) (assign np none ng.links.m_next);
  };
  m_num = assign np (length ng.order) ng.m_num;
}

-- `order.pop_back()`
abbrev pub pop_back : List ℕ → List ℕ
pop_back order = take (length order - 1) order

unfoldable pub pop : NewsgroupOrder → NewsgroupOrder
pop ng = elim (last ng.order) [
  | none ↦ ng
  | some np ↦ sync_links (record {
    order = pop_back ng.order;
    first_newsgroup = ng.first_newsgroup;
    last_newsgroup = ng.last_newsgroup;
    links = record {
      m_prev = assign np none ng.links.m_prev;
      m_next = assign np none ng.links.m_next;
    };
    m_num = ng.m_num;
  })
]

-- The loop of `renumber`.
unfoldable pub number_from : ℕ → List ℕ → (ℕ → ℕ) → ℕ → ℕ
number_from num [] m_num = m_num
number_from num (np ∷ order) m_num = number_from (suc num) order (assign np num m_num)

unfoldable pub renumber : NewsgroupOrder → NewsgroupOrder
renumber ng = record {
  order = ng.order;
  first_newsgroup = ng.first_newsgroup;
  last_newsgroup = ng.last_newsgroup;
  links = ng.links;
  m_num = number_from 0 ng.order ng.m_num;
}

-- `std::find`: whether the group stands in the order, and the order without it.
unfoldable pub take_out : ℕ → List ℕ → Option (List ℕ)
take_out np [] = none
take_out np (x ∷ order) =
    let later : Option (List ℕ) = elim (take_out np order) [
      | none ↦ none
      | some rest ↦ some (x ∷ rest)
    ] in
    if x == np then some order else later

abbrev pub target_pos : ℤ → ℕ
target_pos (pos n) = n
target_pos (negsuc n) = 0

abbrev pub insert_at : ℕ → ℕ → List ℕ → List ℕ
insert_at i np order = take i order ++ (np ∷ drop i order)

abbrev pub with_order : List ℕ → NewsgroupOrder → NewsgroupOrder
with_order order ng = record {
  order = order;
  first_newsgroup = ng.first_newsgroup;
  last_newsgroup = ng.last_newsgroup;
  links = ng.links;
  m_num = ng.m_num;
}

unfoldable pub move : ℕ → ℤ → NewsgroupOrder → Bool × NewsgroupOrder
move np newnum ng = elim (take_out np ng.order) [
  | none ↦ (false, ng)
  | some order ↦ (
    true,
    renumber
        (sync_links (with_order (insert_at (min (target_pos newnum) (length order)) np order) ng)),
  )
]

-- `sort`, with `std::sort` for the criterion that the user chose.
unfoldable pub sort : (List ℕ → List ℕ) → NewsgroupOrder → NewsgroupOrder
sort sorted ng =
    if ltb (length ng.order) 2 then ng else sync_links (with_order (sorted ng.order) ng)

-- How often a group stands in an order.
abbrev pub count : ℕ → List ℕ → ℕ
count x [] = 0
count x (np ∷ order) = (if x == np then 1 else 0) + count x order

abbrev pub IsDistinct : List ℕ → Type 0
IsDistinct order = (x : ℕ) → (leb (count x order) 1 ≡ true)
