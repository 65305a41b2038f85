-- ===== src/Costs/Groups.antt =====
-- The groups of a report partition the measured costs.
use solana.Prelude.{
  ◌≡◌, refl, sym, ap, ◌∙◌, List, [], ◌∷◌, ◌++◌, append_assoc, arith, Bytes, bytes_eq, bytes_eq→eq,
  Bool-cases, inl, inr, if◌then◌else◌,
}
use solana.Costs.{CostData, Groups, add_cost, group_from}

-- The costs listed for an operation.
abbrev pub costs_of : Bytes → Groups → List CostData
costs_of op [] = []
costs_of op ((operation, costs) ∷ groups) =
    let rest = costs_of op groups in if bytes_eq operation op then costs else rest

-- The costs of an operation among those measured.
abbrev pub only : Bytes → List CostData → List CostData
only op [] = []
only op (c ∷ costs) = let rest = only op costs in if bytes_eq c.operation op then c ∷ rest else rest

append_nil : (xs : List CostData) → xs ++ [] ≡ xs
append_nil [] = refl
append_nil (x ∷ xs) = ap (λ (r : List CostData). x ∷ r) (append_nil xs)

bytes_eq-sym : (xs ys : Bytes) → bytes_eq xs ys ≡ bytes_eq ys xs
bytes_eq-sym [] [] = refl
bytes_eq-sym [] (y ∷ ys) = refl
bytes_eq-sym (x ∷ xs) [] = refl
bytes_eq-sym (x ∷ xs) (y ∷ ys) = ground (arith, bytes_eq-sym xs ys)

costs_of-add_cost :
    (op : Bytes) (c : CostData) (groups : Groups)
    → costs_of op (add_cost c groups) ≡ costs_of op groups ++ only op (c ∷ [])
unfolding add_cost
costs_of-add_cost op c [] = refl
costs_of-add_cost op c ((operation, costs) ∷ groups) =
    elim (Bool-cases (bytes_eq operation c.operation)) [
      | inl same ↦
          let e = ap (λ (o : Bytes). bytes_eq o op) (bytes_eq→eq operation c.operation same) in
          ground (arith, same, e, append_nil costs, append_nil (costs_of op groups))
      | inr other ↦ elim (Bool-cases (bytes_eq operation op)) [
        | inl this ↦
            let e = ap (λ (o : Bytes). bytes_eq o c.operation) (bytes_eq→eq operation op this) in
            ground (arith, other, this, append_nil costs, bytes_eq-sym op c.operation, e)
        | inr another ↦ ground (arith, other, another, costs_of-add_cost op c groups)
      ]
    ]

only-append : (op : Bytes) (xs ys : List CostData) → only op (xs ++ ys) ≡ only op xs ++ only op ys
only-append op [] ys = refl
only-append op (x ∷ xs) ys = ground (arith, only-append op xs ys)

group_from-only :
    (op : Bytes) (groups : Groups) (costs : List CostData)
    → costs_of op (group_from groups costs) ≡ costs_of op groups ++ only op costs
unfolding group_from
group_from-only op groups [] = sym (append_nil (costs_of op groups))
group_from-only op groups (c ∷ costs) =
    group_from-only op (add_cost c groups) costs
    ∙ ap (λ (r : List CostData). r ++ only op costs) (costs_of-add_cost op c groups)
    ∙ append_assoc (costs_of op groups) (only op (c ∷ [])) (only op costs)
    ∙ ap (λ (r : List CostData). costs_of op groups ++ r) (sym (only-append op (c ∷ []) costs))

-- The report's groups: the costs of each operation are exactly those measured for it, in order.
group_from-partition :
    (op : Bytes) (costs : List CostData) → costs_of op (group_from [] costs) ≡ only op costs
group_from-partition op costs = group_from-only op [] costs
