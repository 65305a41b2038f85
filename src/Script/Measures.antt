-- ===== src/Script/Measures.antt =====
-- Scripts that run to their end and push costs, each related to a label: rules for their steps.
use solana.Prelude.{
  ◌≡◌, refl, sym, ap, ◌∙◌, Option, none, some, List, [], ◌∷◌, ◌++◌, append_assoc, Bytes,
}
use solana.Script.{
  Outcome, done, threw, and_then, Request, State, Script, ◌>>=◌, call, send, push, return, answered,
  exit_code,
}
use solana.Script.Completion.{Given, Any, append_nil}

-- Two lists of one length, related place by place.
abbrev pub Pairwise : {X Y : Type 0} → (X → Y → Type 0) → List X → List Y → Type 0
Pairwise R [] [] = Unit {0}
Pairwise R (x ∷ xs) (y ∷ ys) = R x y × Pairwise R xs ys
Pairwise R [] (y ∷ ys) = ⊥
Pairwise R (x ∷ xs) [] = ⊥

Pairwise-append :
    {X Y : Type 0} (R : X → Y → Type 0) (xs xs' : List X) (ys ys' : List Y)
    → Pairwise R xs ys
    → Pairwise R xs' ys'
    → Pairwise R (xs ++ xs') (ys ++ ys')
Pairwise-append R [] xs' [] ys' h g = g
Pairwise-append R (x ∷ xs) xs' (y ∷ ys) ys' (r, h) g = (r, Pairwise-append R xs xs' ys ys' h g)
Pairwise-append R [] xs' (y ∷ ys) ys' h g = elim h [ ]
Pairwise-append R (x ∷ xs) xs' [] ys' h g = elim h [ ]

-- An answer that a call has given.
abbrev pub Answered : {A Net : Type 0} → (Net → Option A × Net) → A → Type 0
Answered {A} {Net} c a = (before : Net) × (after : Net) × (c before ≡ (some a, after))

module _ {Net Cost X : Type 0} (R : X → Cost → Type 0) where
  -- An outcome that did not throw; the costs pushed on the way are related to the labels.
  abbrev pub Grown :
      {A : Type 0} → List Cost → List X → (A → Type 0) → Outcome (State Net Cost) A → Type 0
  Grown before labels P (done a s) =
      ((new : List Cost) × (s.costs ≡ before ++ new) × Pairwise R labels new) × P a
  Grown before labels P (threw s) = ⊥

  pub record Measures {A : Type 0} (labels : List X) (P : A → Type 0)
      (m : Script (State Net Cost) A) : Type 0 where
    pub after : (s : State Net Cost) → Grown s.costs labels P (m s)

  Grown-shift :
      {A : Type 0} (P : A → Type 0) (before between new : List Cost) (labels labels' : List X)
      (o : Outcome (State Net Cost) A)
      → between ≡ before ++ new
      → Pairwise R labels new
      → Grown between labels' P o
      → Grown before (labels ++ labels') P o
  Grown-shift P before between new labels labels' (done a s) e r ((more, grown, r'), p) = (
    (
      new ++ more,
      grown ∙ ap (λ (x : List Cost). x ++ more) e ∙ append_assoc before new more,
      Pairwise-append R labels labels' new more r r',
    ),
    p,
  )
  Grown-shift P before between new labels labels' (threw s) e r h = h

  Grown-and_then :
      {A B : Type 0} {P : A → Type 0} {Q : B → Type 0} (before : List Cost)
      (labels labels' : List X) (o : Outcome (State Net Cost) A) (k : A → Script (State Net Cost) B)
      → Grown before labels P o
      → ((a : A) → P a → Measures labels' Q (k a))
      → Grown before (labels ++ labels') Q (and_then o k)
  Grown-and_then before labels labels' (done a s) k ((new, grown, r), p) g =
      Grown-shift _ before s.costs new labels labels' (k a s) grown r ((g a p).after s)
  Grown-and_then before labels labels' (threw s) k h g = elim h [ ]

  pub Measures->>= :
      {A B : Type 0} {labels labels' : List X} {P : A → Type 0} {Q : B → Type 0}
      {m : Script (State Net Cost) A} {k : A → Script (State Net Cost) B}
      → Measures labels P m
      → ((a : A) → P a → Measures labels' Q (k a))
      → Measures (labels ++ labels') Q (m >>= k)
  unfolding ◌>>=◌
  Measures->>= {A} {B} {labels} {labels'} {P} {Q} {m} {k} hm hk = record {
    after = λ s. Grown-and_then s.costs labels labels' (m s) k (hm.after s) hk;
  }

  Grown-answered :
      {A : Type 0} (P : A → Type 0) (c : Net → Option A × Net) (s s' : State Net Cost) (net : Net)
      (o : Option A × Net)
      → s'.costs ≡ s.costs
      → c net ≡ o
      → Given P o
      → Grown s.costs [] (λ a. P a × Answered c a) (answered s' o)
  Grown-answered P c s s' net (none, after) same e h = elim h [ ]
  Grown-answered P c s s' net (some a, after) same e h =
      (([], same ∙ sym (append_nil s.costs), tt), (h, (net, after, e)))

  pub Measures-call :
      {A : Type 0} {P : A → Type 0} (c : Net → Option A × Net)
      → ((net : Net) → Given P (c net))
      → Measures [] (λ a. P a × Answered c a) (call c)
  unfolding call
  Measures-call c h = record {
    after = λ s. Grown-answered _ c s s s.net (c s.net) refl refl (h s.net);
  }

  pub Measures-send :
      (rpc : Request → Net → Option Bytes × Net) (request : Request)
      → ((r : Request) (net : Net) → Given Any (rpc r net))
      → Measures [] (λ sig. Unit {0} × Answered (rpc request) sig) (send rpc request)
  unfolding send
  Measures-send rpc request h = record {
    after = λ s.
        Grown-answered Any (rpc request) s (record s { sent = s.sent ++ (request ∷ []) }) s.net
          (rpc request s.net) refl refl (h request s.net);
  }

  pub Measures-push :
      (label : X) (cost : Cost)
      → R label cost
      → Measures (label ∷ []) (λ (u : Unit {0}). Unit {0}) (push {Net = Net} cost)
  unfolding push
  Measures-push label cost r = record { after = λ s. ((cost ∷ [], refl, (r, tt)), tt) }

  pub Measures-return :
      {A : Type 0} (a : A) → Measures [] (λ (x : A). Unit {0}) (return {S = State Net Cost} a)
  unfolding return
  Measures-return a = record { after = λ s. (([], sym (append_nil s.costs), tt), tt) }

  -- What ended has the exit code 0.
  pub Grown-exit_code :
      {A : Type 0} (P : A → Type 0) (before : List Cost) (labels : List X)
      (o : Outcome (State Net Cost) A)
      → Grown before labels P o
      → ((exit_code o).0 ≡ 0)
        × ((new : List Cost) × ((exit_code o).1.costs ≡ before ++ new) × Pairwise R labels new)
  Grown-exit_code P before labels (done a state) (h, p) = (refl, h)
  Grown-exit_code P before labels (threw state) h = elim h [ ]
