-- ===== src/Script/Rules.antt =====
-- Which requests a script sends, and in which order: rules for its steps.
use solana.Prelude.{
  ℕ, ◌≡◌, refl, sym, ap, ◌∙◌, Option, none, some, List, [], ◌∷◌, ◌++◌, map, append_assoc, Bytes,
  Pubkey, arith,
}
use solana.Script.{
  Outcome, done, threw, and_then, Request, State, Script, ◌>>=◌, call, send, push, return, throw,
  attempt, answered, caught, exit_code,
}

-- The program and the method of a request.
abbrev pub Label : Type 0
Label = Pubkey × Bytes

abbrev pub label : Request → Label
label r = (r.program, r.method)

abbrev pub labels : List Request → List Label
labels = map label

labels-append : (rs qs : List Request) → labels (rs ++ qs) ≡ labels rs ++ labels qs
labels-append [] qs = refl
labels-append (r ∷ rs) qs = ap (λ (x : List Label). label r ∷ x) (labels-append rs qs)

pub append_nil : (xs : List Label) → xs ++ [] ≡ xs
append_nil [] = refl
append_nil (x ∷ xs) = ap (λ (r : List Label). x ∷ r) (append_nil xs)

module _ {Net Cost : Type 0} where
  -- After the requests `before`, an outcome has sent `ls`; one that threw, a part of them from the
  -- first on.
  abbrev pub Sent : {A : Type 0} → List Label → List Label → Outcome (State Net Cost) A → Type 0
  Sent before ls (done a s) = labels s.sent ≡ before ++ ls
  Sent before ls (threw s) =
      (now : List Label) × (later : List Label) × (ls ≡ now ++ later)
      × (labels s.sent ≡ before ++ now)

  pub record Emits {A : Type 0} (ls : List Label) (m : Script (State Net Cost) A) : Type 0 where
    pub after : (s : State Net Cost) → Sent (labels s.sent) ls (m s)

  Sent-shift :
      {A : Type 0} (before between ls ls' : List Label) (o : Outcome (State Net Cost) A)
      → between ≡ before ++ ls
      → Sent between ls' o
      → Sent before (ls ++ ls') o
  Sent-shift before between ls ls' (done a s) e h =
      h ∙ ap (λ (x : List Label). x ++ ls') e ∙ append_assoc before ls ls'
  Sent-shift before between ls ls' (threw s) e (now, later, split, h) = (
    ls ++ now,
    later,
    ap (λ (x : List Label). ls ++ x) split ∙ sym (append_assoc ls now later),
    h ∙ ap (λ (x : List Label). x ++ now) e ∙ append_assoc before ls now,
  )

  Sent-and_then :
      {A B : Type 0} (before ls ls' : List Label) (o : Outcome (State Net Cost) A)
      (k : A → Script (State Net Cost) B)
      → Sent before ls o
      → ((a : A) → Emits ls' (k a))
      → Sent before (ls ++ ls') (and_then o k)
  Sent-and_then before ls ls' (done a s) k h g =
      Sent-shift before (labels s.sent) ls ls' (k a s) h ((g a).after s)
  Sent-and_then before ls ls' (threw s) k (now, later, split, h) g =
      (now, later ++ ls', ap (λ (x : List Label). x ++ ls') split ∙ append_assoc now later ls', h)

  pub Emits->>= :
      {A B : Type 0} {ls ls' : List Label} {m : Script (State Net Cost) A}
      {k : A → Script (State Net Cost) B}
      → Emits ls m
      → ((a : A) → Emits ls' (k a))
      → Emits (ls ++ ls') (m >>= k)
  unfolding ◌>>=◌
  Emits->>= {A} {B} {ls} {ls'} {m} {k} hm hk = record {
    after = λ s. Sent-and_then (labels s.sent) ls ls' (m s) k (hm.after s) hk;
  }

  -- A call of the network sends nothing, whether it is answered or throws.
  Sent-answered :
      {A : Type 0} (before : List Label) (s : State Net Cost) (o : Option A × Net)
      → labels s.sent ≡ before
      → Sent before [] (answered s o)
  Sent-answered before s (none, net) h = ([], [], refl, h ∙ sym (append_nil before))
  Sent-answered before s (some a, net) h = h ∙ sym (append_nil before)

  pub Emits-call : {A : Type 0} (c : Net → Option A × Net) → Emits [] (call {Cost = Cost} c)
  unfolding call
  Emits-call c = record { after = λ s. Sent-answered (labels s.sent) s (c s.net) refl }

  Sent-send :
      (before : List Label) (l : Label) (s : State Net Cost) (o : Option Bytes × Net)
      → labels s.sent ≡ before ++ (l ∷ [])
      → Sent before (l ∷ []) (answered s o)
  Sent-send before l s (none, net) h = (l ∷ [], [], refl, h)
  Sent-send before l s (some a, net) h = h

  pub Emits-send :
      (rpc : Request → Net → Option Bytes × Net) (request : Request)
      → Emits (label request ∷ []) (send {Cost = Cost} rpc request)
  unfolding send
  Emits-send rpc request = record {
    after = λ s.
        Sent-send (labels s.sent) (label request) (record s { sent = s.sent ++ (request ∷ []) })
          (rpc request s.net) (labels-append s.sent (request ∷ []));
  }

  pub Emits-push : (cost : Cost) → Emits [] (push {Net = Net} cost)
  unfolding push
  Emits-push cost = record { after = λ s. sym (append_nil (labels s.sent)) }

  pub Emits-return : {A : Type 0} (a : A) → Emits [] (return {S = State Net Cost} a)
  unfolding return
  Emits-return a = record { after = λ s. sym (append_nil (labels s.sent)) }

  pub Emits-throw : {A : Type 0} (ls : List Label) → Emits ls (throw {S = State Net Cost} {A = A})
  unfolding throw
  Emits-throw ls = record { after = λ s. ([], ls, refl, sym (append_nil (labels s.sent))) }

  -- With the exit code 0 all requests are sent, with another a part of them from the first on.
  abbrev pub IsRun : List Label → List Label → ℕ × State Net Cost → Type 0
  IsRun before ls (code, s) =
      (now : List Label) × (later : List Label) × (ls ≡ now ++ later)
      × (labels s.sent ≡ before ++ now)
      × (code ≡ 0 → later ≡ [])

  pub IsRun-exit_code :
      {A : Type 0} (before ls : List Label) (o : Outcome (State Net Cost) A)
      → Sent before ls o
      → IsRun before ls (exit_code o)
  IsRun-exit_code before ls (done a s) h = (ls, [], sym (append_nil ls), h, λ _. refl)
  IsRun-exit_code before ls (threw s) (now, later, split, h) =
      (now, later, split, h, λ e. absurd (omega (arith, e)))

  -- Whether it throws or not, a script has sent `ls`.
  abbrev pub state_of : {A : Type 0} → Outcome (State Net Cost) A → State Net Cost
  state_of (done a s) = s
  state_of (threw s) = s

  pub record Always {A : Type 0} (ls : List Label) (m : Script (State Net Cost) A) : Type 0 where
    pub after : (s : State Net Cost) → labels (state_of (m s)).sent ≡ labels s.sent ++ ls

  quiet :
      {A : Type 0} (before : List Label) (o : Outcome (State Net Cost) A)
      → Sent before [] o
      → labels (state_of o).sent ≡ before ++ []
  quiet before (done a s) h = h
  quiet before (threw s) ([], later, split, h) = h
  quiet before (threw s) (l ∷ now, later, split, h) = absurd (cc)

  pub Always-quiet : {A : Type 0} {m : Script (State Net Cost) A} → Emits [] m → Always [] m
  Always-quiet {A} {m} h = record { after = λ s. quiet (labels s.sent) (m s) (h.after s) }

  quiet_after :
      {A B : Type 0} (before : List Label) (o : Outcome (State Net Cost) A)
      (k : A → Script (State Net Cost) B)
      → labels (state_of o).sent ≡ before
      → ((a : A) → Emits [] (k a))
      → labels (state_of (and_then o k)).sent ≡ before
  quiet_after before (done a s) k h g =
      quiet (labels s.sent) (k a s) ((g a).after s) ∙ append_nil (labels s.sent) ∙ h
  quiet_after before (threw s) k h g = h

  sent_answered :
      (s : State Net Cost) (o : Option Bytes × Net) → (state_of (answered s o)).sent ≡ s.sent
  sent_answered s (none, net) = refl
  sent_answered s (some a, net) = refl

  pub Always-send :
      {B : Type 0} (rpc : Request → Net → Option Bytes × Net) (request : Request)
      {k : Bytes → Script (State Net Cost) B}
      → ((a : Bytes) → Emits [] (k a))
      → Always (label request ∷ []) (send rpc request >>= k)
  unfolding send ◌>>=◌
  Always-send {B} rpc request {k} g = record {
    after = λ s.
        let s1 : State Net Cost = record s { sent = s.sent ++ (request ∷ []) } in
        quiet_after _ (answered s1 (rpc request s.net)) k
          (ap labels (sent_answered s1 (rpc request s.net)) ∙ labels-append s.sent (request ∷ []))
          g;
  }

  Sent-caught :
      {A : Type 0} (before ls : List Label) (handler : Script (State Net Cost) A)
      (o : Outcome (State Net Cost) A)
      → labels (state_of o).sent ≡ before ++ ls
      → Emits [] handler
      → Sent before ls (caught handler o)
  Sent-caught before ls handler (done a s) h g = h
  Sent-caught before ls handler (threw s) h g =
      rw (sym (append_nil ls)) (Sent-shift before (labels s.sent) ls [] (handler s) h (g.after s))

  pub Emits-attempt :
      {A : Type 0} {ls : List Label} {body handler : Script (State Net Cost) A}
      → Always ls body
      → Emits [] handler
      → Emits ls (attempt body handler)
  unfolding attempt
  Emits-attempt {A} {ls} {body} {handler} h g = record {
    after = λ s. Sent-caught (labels s.sent) ls handler (body s) (h.after s) g;
  }
