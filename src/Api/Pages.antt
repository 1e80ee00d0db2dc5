-- ===== src/Api/Pages.antt =====
-- The lists of gateway/app/api/routes.py: what a page holds.
use cnp_v1_starter_kit.Prelude.{
  ℕ, zero, suc, ◌≤◌, ℤ, pos, negsuc, Bool, Bool-cases, true, false, ◌&&◌, ◌||◌, List, [], ◌∷◌,
  Option, none, some, String, str_eq, is_blank, one_of, take, select, all, any, length, length-take,
  text_leb_total, text_leb_trans, order_by, IsOrdered, any-order_by, all-order_by,
  order_by-IsOrdered, arith, ◌≡◌, refl, inl, inr, ◌∙◌, subst,
}
use cnp_v1_starter_kit.Store.Tables.{Node, Store}
use cnp_v1_starter_kit.Api.Gateway.{Gateway, answer, http_error}
use cnp_v1_starter_kit.Api.FleetRoutes.{
  valid_node_statuses, build_filter, limit_ok, sql_limit, if_valid, all_readable, listed_nodes,
  node_le, nodes_page, list_nodes,
}

absent : (keep : String → Bool) → none ≡ some keep → ⊥
absent keep h = cc

refused_list : (n : ℕ) (code : String) (ns : List Node) → http_error n code ≡ answer ns → ⊥
refused_list n code ns h = cc

module _ {ℓ} {A : Type ℓ} where
  all-take : (p : A → Bool) (n : ℕ) (xs : List A) → all p xs ≡ true → all p (take n xs) ≡ true
  all-take p zero xs h = refl
  all-take p (suc n) [] h = refl
  all-take p (suc n) (x ∷ xs) h = ground (arith, h, all-take p n xs)

  IsOrdered-take :
      (le : A → A → Bool) (n : ℕ) (xs : List A) → IsOrdered le xs → IsOrdered le (take n xs)
  IsOrdered-take le zero xs h = tt
  IsOrdered-take le (suc n) [] h = tt
  IsOrdered-take le (suc n) (x ∷ xs) h =
      (all-take (λ y. le x y) n xs h.0, IsOrdered-take le n xs h.1)

  all-select :
      (p q : A → Bool) (xs : List A)
      → ((x : A) → q x ≡ true → p x ≡ true)
      → all p (select q xs) ≡ true
  all-select p q [] h = refl
  all-select p q (x ∷ xs) h = ground (arith, h x, all-select p q xs h)

  any-select : (p q : A → Bool) (xs : List A) → any p (select q xs) ≡ any (λ x. q x && p x) xs
  any-select p q [] = refl
  any-select p q (x ∷ xs) = ground (arith, any-select p q xs)

  all-sql_limit :
      (p : A → Bool) (l : ℤ) (xs : List A) → all p xs ≡ true → all p (sql_limit l xs) ≡ true
  unfolding sql_limit
  all-sql_limit p (pos n) xs h = all-take p n xs h
  all-sql_limit p (negsuc n) xs h = h

  IsOrdered-sql_limit :
      (le : A → A → Bool) (l : ℤ) (xs : List A) → IsOrdered le xs → IsOrdered le (sql_limit l xs)
  unfolding sql_limit
  IsOrdered-sql_limit le (pos n) xs h = IsOrdered-take le n xs h
  IsOrdered-sql_limit le (negsuc n) xs h = h

module _ {ℓ} {A : Type ℓ} where
  length-sql_limit :
      (l : ℤ) (n : ℕ) (xs : List A)
      → limit_ok l ≡ true
      → l ≡ pos n
      → (length (sql_limit l xs) ≤ n) × (n ≤ 500)
  unfolding sql_limit
  length-sql_limit (pos m) n xs ok e = ground (arith, ok, e, length-take m xs)
  length-sql_limit (negsuc m) n xs ok e = ground (arith, e)

  any-sql_limit :
      (p : A → Bool) (l : ℤ) (n : ℕ) (xs : List A)
      → l ≡ negsuc n
      → any p (sql_limit l xs) ≡ any p xs
  unfolding sql_limit
  any-sql_limit p (pos m) n xs e = ground (arith, e)
  any-sql_limit p (negsuc m) n xs e = refl

  any_same : (p q : A → Bool) (xs : List A) → ((x : A) → p x ≡ q x) → any p xs ≡ any q xs
  any_same p q [] h = refl
  any_same p q (x ∷ xs) h = ground (arith, h x, any_same p q xs h)

-- What a page of nodes with a status filter is.
pub record IsPage (status : String) (limit : ℤ) (s : Store) (ns : List Node) : Type 0 where
  pub filtered : is_blank status ≡ false → all (λ n. str_eq n.status status) ns ≡ true
  pub ordered : IsOrdered node_le ns
  pub bounded : (n : ℕ) → limit ≡ pos n → (length ns ≤ n) × (n ≤ 500)
  pub unbounded :
      (n : ℕ)
      → limit ≡ negsuc n
      → (p : Node → Bool)
      → any p ns ≡ any (λ x. (is_blank status || str_eq x.status status) && p x) s.nodes

abbrev kept : Option (String → Bool) → String → Bool
kept none v = false
kept (some k) v = k v

-- `build_filter` keeps what has the value, or all if the value is empty.
build_filter-kept :
    (values : List String) (value v : String)
    → is_blank value || one_of value values ≡ true
    → kept (build_filter values value) v ≡ is_blank value || str_eq v value
unfolding build_filter
build_filter-kept values value v h = ground (arith, h)

build_filter-some :
    (values : List String) (value : String) (keep : String → Bool)
    → build_filter values value ≡ some keep
    → is_blank value || one_of value values ≡ true
unfolding build_filter
build_filter-some values value keep h = elim (Bool-cases (is_blank value)) [
  | inl blank ↦ rw blank refl
  | inr given ↦ elim (Bool-cases (one_of value values)) [
    | inl known ↦ rw given rw known refl
    | inr unknown ↦ elim (absent keep (rw given at (rw unknown at h))) [ ]
  ]
]

build_filter-keep :
    (values : List String) (value v : String) (keep : String → Bool)
    → build_filter values value ≡ some keep
    → keep v ≡ is_blank value || str_eq v value
build_filter-keep values value v keep h =
    rw h at (build_filter-kept values value v (build_filter-some values value keep h))

nodes_page-IsPage :
    (readable : Node → Bool) (status : String) (limit : ℤ) (keep : String → Bool) (s : Store)
    → limit_ok limit ≡ true
    → ((v : String) → keep v ≡ is_blank status || str_eq v status)
    → IsPage status limit s (nodes_page readable limit keep s)
unfolding nodes_page
nodes_page-IsPage readable status limit keep s ok same =
    let rows = select (λ n. keep n.status) s.nodes in
    record {
      filtered = λ given. all-sql_limit _ limit (order_by node_le rows) (
          rw (all-order_by node_le (λ n. str_eq n.status status) rows) (
            all-select (λ n. str_eq n.status status) (λ n. keep n.status) s.nodes
              (λ n kept. ground (arith, same n.status, kept, given))));
      ordered = IsOrdered-sql_limit node_le limit (order_by node_le rows) (
          order_by-IsOrdered node_le (λ a b. text_leb_total a.node_id b.node_id)
            (λ a b c. text_leb_trans a.node_id b.node_id c.node_id) rows);
      bounded = λ n e. length-sql_limit limit n (order_by node_le rows) ok e;
      unbounded = λ n e p.
          any-sql_limit p limit n (order_by node_le rows) e
          ∙ any-order_by node_le p rows
          ∙ any-select p (λ x. keep x.status) s.nodes
          ∙ any_same (λ x. keep x.status && p x) _ s.nodes (λ x. rw (same x.status) refl);
    }

readable_page :
    (readable : Node → Bool) (page ns : List Node)
    → all_readable readable page ≡ answer ns
    → page ≡ ns
readable_page readable page ns h = elim (Bool-cases (all readable page)) [
  | inl fits ↦ ground (arith, h, fits)
  | inr unfit ↦ ground (arith, h, unfit)
]

listed :
    (readable : Node → Bool) (limit : ℤ) (b : Bool) (o : Option (String → Bool)) (g : Gateway)
    (ns : List Node)
    → (if_valid b (listed_nodes readable limit o) g).1 ≡ answer ns
    → (keep : String → Bool) × (b ≡ true)
      × (o ≡ some keep)
      × (nodes_page readable limit keep g.store ≡ ns)
listed readable limit true (some keep) g ns h =
    (keep, refl, refl, readable_page readable (nodes_page readable limit keep g.store) ns h)
listed readable limit true none g ns h = elim (refused_list 400 "invalid_filter" ns h) [ ]
listed readable limit false o g ns h = elim (refused_list 400 "request_validation_failed" ns h) [ ]

-- A list of nodes that is answered holds nodes with the status asked for only, if one was; they
-- stand in the order of their identifiers; with a limit that is not negative they are at most that
-- many, and at most 500; but with a negative limit every such node is there, however many.
pub list_nodes-IsPage :
    (readable : Node → Bool) (status : String) (limit : ℤ) (g : Gateway) (ns : List Node)
    → (list_nodes readable status limit g).1 ≡ answer ns
    → IsPage status limit g.store ns
unfolding list_nodes
list_nodes-IsPage readable status limit g ns h =
    let r =
      listed readable limit (limit_ok limit) (build_filter valid_node_statuses status) g ns h in
    subst (IsPage status limit g.store) (r.3) (
      nodes_page-IsPage readable status limit (r.0) g.store (r.1)
        (λ v. build_filter-keep valid_node_statuses status v (r.0) (r.2)))
