-- ===== src/Graph/Builder/Edges.antt =====
-- The first loop of `graph_builder::build`: the tables it fills, and when it gives up.
use mathlib.Core.List.{append-nil, append_assoc}
use xsigma.Common.{
  ℕ, zero, suc, flatten, replicate, ◌+◌, ◌≤◌, ◌<◌, ◌≡◌, refl, sym, ap, ◌∙◌, ◌||◌, inl, inr, Option,
  none, some, List, [], ◌∷◌, ◌++◌, arith, leb, ◌==◌, if◌then◌else◌, Bool-cases, length, get_or, set,
  count, length-set, length-append, get_or-set, get_or-replicate_self, length-replicate,
}
use xsigma.Graph.Builder.{PendingEdge, Tables, push_at, register, scan_edges, blank_tables}

-- The dependencies of `v`, in the order of the edges.
unfoldable pub inputs_of : ℕ → List PendingEdge → List ℕ
inputs_of v [] = []
inputs_of v (e ∷ es) =
    let rest = inputs_of v es in if v == e.node then e.dependency ∷ rest else rest

-- The nodes that depend on `u`, in the order of the edges.
unfoldable pub consumers_of : ℕ → List PendingEdge → List ℕ
consumers_of u [] = []
consumers_of u (e ∷ es) =
    let rest = consumers_of u es in if u == e.dependency then e.node ∷ rest else rest

pub length-consumers_of : (u : ℕ) (es : List PendingEdge) → length (consumers_of u es) ≤ length es
unfolding consumers_of
length-consumers_of u [] = omega arith
length-consumers_of u (e ∷ es) = ground (arith, length-consumers_of u es)

-- Each edge joins two nodes below `n`.
abbrev pub InRange : ℕ → List PendingEdge → Type 0
InRange n [] = Unit {0}
InRange n (e ∷ es) = ((e.node < n) × (e.dependency < n)) × InRange n es

-- An edge is a dependency as often as it is a consumer.
pub inputs_consumers :
    (es : List PendingEdge) (u v : ℕ) → count v (consumers_of u es) ≡ count u (inputs_of v es)
unfolding inputs_of consumers_of count
inputs_consumers [] u v = refl
inputs_consumers (e ∷ es) u v = ground (arith, inputs_consumers es u v)

pub inputs_below :
    {n : ℕ} (es : List PendingEdge)
    → InRange n es
    → (u v : ℕ) → 0 < count u (inputs_of v es)
    → (u < n) × (v < n)
unfolding inputs_of count
inputs_below [] r u v h = absurd (omega arith)
inputs_below (e ∷ es) r u v h = ground (arith, inputs_below es r.1 u v)

-- The tables `t` hold what `s` holds and the edges `es`.
pub record Registers (s : Tables) (es : List PendingEdge) (t : Tables) : Type 0 where
  pub consumers : (u : ℕ) → get_or t.successors u [] ≡ get_or s.successors u [] ++ consumers_of u es
  pub inputs : (v : ℕ) → get_or t.dependencies v [] ≡ get_or s.dependencies v [] ++ inputs_of v es
  pub degree : (v : ℕ) → get_or t.in_degree v 0 ≡ get_or s.in_degree v 0 + length (inputs_of v es)
  pub width_successors : length t.successors ≡ length s.successors
  pub width_dependencies : length t.dependencies ≡ length s.dependencies
  pub width_in_degree : length t.in_degree ≡ length s.in_degree
  pub total_consumers : length (flatten t.successors) ≡ length (flatten s.successors) + length es
  pub total_inputs : length (flatten t.dependencies) ≡ length (flatten s.dependencies) + length es

pub record IsSized (n : ℕ) (t : Tables) : Type 0 where
  pub successors : length t.successors ≡ n
  pub dependencies : length t.dependencies ≡ n
  pub in_degree : length t.in_degree ≡ n

register-IsSized : {n : ℕ} (t : Tables) (e : PendingEdge) → IsSized n t → IsSized n (register t e)
unfolding register
register-IsSized t e z = record {
  successors = length-set t.successors _ _ ∙ z.successors;
  dependencies = length-set t.dependencies _ _ ∙ z.dependencies;
  in_degree = length-set t.in_degree _ _ ∙ z.in_degree;
}

length-flatten-set :
    (rows : List (List ℕ)) (i : ℕ) (row : List ℕ)
    → i < length rows
    → length (flatten (set rows i row)) + length (get_or rows i [])
      ≡ length (flatten rows) + length row
unfolding flatten
length-flatten-set [] i row h = absurd (omega arith)
length-flatten-set (r ∷ rows) zero row h =
    omega (arith, length-append r (flatten rows), length-append row (flatten rows))
length-flatten-set (r ∷ rows) (suc i) row h = omega (
  arith,
  length-append r (flatten rows),
  length-append r (flatten (set rows i row)),
  length-flatten-set rows i row (omega arith),
)

push_total :
    (rows : List (List ℕ)) (i x : ℕ)
    → i < length rows
    → length (flatten (push_at rows i x)) ≡ length (flatten rows) + 1
push_total rows i x h = omega (
  arith,
  length-flatten-set rows i (get_or rows i [] ++ x ∷ []) h,
  length-append (get_or rows i []) (x ∷ []),
)

register-Registers :
    {n : ℕ} (t : Tables) (e : PendingEdge)
    → IsSized n t
    → e.node < n
    → e.dependency < n
    → Registers t (e ∷ []) (register t e)
unfolding register inputs_of consumers_of
register-Registers t e z p q = record {
  consumers = λ u. ground (
    arith,
    get_or-set t.successors e.dependency u (get_or t.successors e.dependency [] ++ e.node ∷ []) [],
    append-nil (get_or t.successors u []),
    z.successors,
  );
  inputs = λ v. ground (
    arith,
    get_or-set t.dependencies e.node v (get_or t.dependencies e.node [] ++ e.dependency ∷ []) [],
    append-nil (get_or t.dependencies v []),
    z.dependencies,
  );
  degree = λ v.
      ground
        (arith, get_or-set t.in_degree e.node v (get_or t.in_degree e.node 0 + 1) 0, z.in_degree);
  width_successors = length-set t.successors _ _;
  width_dependencies = length-set t.dependencies _ _;
  width_in_degree = length-set t.in_degree _ _;
  total_consumers = push_total t.successors e.dependency e.node (omega (arith, z.successors));
  total_inputs = push_total t.dependencies e.node e.dependency (omega (arith, z.dependencies));
}

inputs_of-cons :
    (v : ℕ) (e : PendingEdge) (es : List PendingEdge)
    → inputs_of v (e ∷ es) ≡ inputs_of v (e ∷ []) ++ inputs_of v es
unfolding inputs_of
inputs_of-cons v e es = ground arith

consumers_of-cons :
    (v : ℕ) (e : PendingEdge) (es : List PendingEdge)
    → consumers_of v (e ∷ es) ≡ consumers_of v (e ∷ []) ++ consumers_of v es
unfolding consumers_of
consumers_of-cons v e es = ground arith

Registers-trans :
    {s t r : Tables} (e : PendingEdge) (es : List PendingEdge)
    → Registers s (e ∷ []) t
    → Registers t es r
    → Registers s (e ∷ es) r
Registers-trans e es a b = record {
  consumers = λ u. rw (b.consumers u, a.consumers u, consumers_of-cons u e es, append_assoc);
  inputs = λ v. rw (b.inputs v, a.inputs v, inputs_of-cons v e es, append_assoc);
  degree = λ v. omega (
    arith,
    a.degree v,
    b.degree v,
    ap length (inputs_of-cons v e es),
    length-append (inputs_of v (e ∷ [])) (inputs_of v es),
  );
  width_successors = b.width_successors ∙ a.width_successors;
  width_dependencies = b.width_dependencies ∙ a.width_dependencies;
  width_in_degree = b.width_in_degree ∙ a.width_in_degree;
  total_consumers = omega (arith, a.total_consumers, b.total_consumers);
  total_inputs = omega (arith, a.total_inputs, b.total_inputs);
}

-- The loop fails exactly if an edge leaves the graph; otherwise it registers every edge.
pub data Scanned (n : ℕ) (es : List PendingEdge) (s : Tables) : Option Tables → Type 0 where
  rejected : ¬ InRange n es → Scanned n es s none
  filled : (t : Tables) → InRange n es → Registers s es t → Scanned n es s (some t)

extend_scan :
    {n : ℕ} (e : PendingEdge) (es : List PendingEdge) {s t : Tables} {r : Option Tables}
    → e.node < n
    → e.dependency < n
    → Registers s (e ∷ []) t
    → Scanned n es t r
    → Scanned n (e ∷ es) s r
extend_scan e es p q a (rejected no_way) = rejected (λ r. no_way r.1)
extend_scan e es p q a (filled t r b) = filled t ((p, q), r) (Registers-trans e es a b)

pub scan_edges-Scanned :
    (n : ℕ) (es : List PendingEdge) (s : Tables) → IsSized n s → Scanned n es s (scan_edges n es s)
unfolding scan_edges inputs_of consumers_of
scan_edges-Scanned n [] s z = filled s tt (record {
  consumers = λ u. sym (append-nil _);
  inputs = λ v. sym (append-nil _);
  degree = λ v. omega arith;
  width_successors = refl;
  width_dependencies = refl;
  width_in_degree = refl;
  total_consumers = omega arith;
  total_inputs = omega arith;
})
scan_edges-Scanned n (e ∷ es) s z = elim (Bool-cases (leb n e.node || leb n e.dependency)) [
  | inl out ↦ rw out (rejected (λ r. ground arith))
  | inr fits ↦
      let p : e.node < n = ground arith in
      let q : e.dependency < n = ground arith in
      rw fits (
        extend_scan e es p q (register-Registers s e z p q)
          (scan_edges-Scanned n es (register s e) (register-IsSized s e z)))
]

pub blank_tables-IsSized : (n : ℕ) → IsSized n (blank_tables n)
unfolding blank_tables
blank_tables-IsSized n = record {
  successors = length-replicate n [];
  dependencies = length-replicate n [];
  in_degree = length-replicate n 0;
}

-- What `build` goes on with: the tables of exactly the edges.
pub record Tabulates (n : ℕ) (es : List PendingEdge) (t : Tables) : Type 0 where
  pub consumers : (u : ℕ) → get_or t.successors u [] ≡ consumers_of u es
  pub inputs : (v : ℕ) → get_or t.dependencies v [] ≡ inputs_of v es
  pub degree : (v : ℕ) → get_or t.in_degree v 0 ≡ length (inputs_of v es)
  pub sized : IsSized n t
  pub total_consumers : length (flatten t.successors) ≡ length es
  pub total_inputs : length (flatten t.dependencies) ≡ length es

flatten-blank : (n : ℕ) → flatten {A = ℕ} (replicate n []) ≡ []
unfolding flatten
flatten-blank zero = refl
flatten-blank (suc n) = flatten-blank n

pub Registers-Tabulates :
    {n : ℕ} {es : List PendingEdge} {t : Tables}
    → Registers (blank_tables n) es t
    → Tabulates n es t
unfolding blank_tables
Registers-Tabulates {n} {es} r = record {
  consumers =
      λ u. r.consumers u ∙ ap (λ xs. xs ++ consumers_of u es) (get_or-replicate_self n u []);
  inputs = λ v. r.inputs v ∙ ap (λ xs. xs ++ inputs_of v es) (get_or-replicate_self n v []);
  degree = λ v. omega (arith, r.degree v, get_or-replicate_self {A = ℕ} n v 0);
  sized = record {
    successors = r.width_successors ∙ length-replicate n [];
    dependencies = r.width_dependencies ∙ length-replicate n [];
    in_degree = r.width_in_degree ∙ length-replicate n 0;
  };
  total_consumers = omega (arith, r.total_consumers, ap length (flatten-blank n));
  total_inputs = omega (arith, r.total_inputs, ap length (flatten-blank n));
}
