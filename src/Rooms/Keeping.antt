-- ===== src/Rooms/Keeping.antt =====
-- What a handler keeps, however it ends: the rules for the steps that the handlers are made of.
pub mod Laws
pub mod Lobby
pub mod Harmless
pub mod Runs
pub mod Peers
pub mod Play
use vaelmour_game.Prelude.{ℕ, ◌≡◌, Bool, true, false, Option, none, some, List, [], ◌∷◌, refl}
use vaelmour_game.Rooms.Handler.{
  Handler, Void, Fail, Thrown, Exit, value, failed, thrown, continue, handled, caught, ended, ◌>>=◌,
  ◌>>◌, pure, fail, throw, fail_if, or_fail, or_throw, gets, modify, when, for_each, try_catch,
  detached, call, branch, if_some,
}

-- A record, so that the handler shows in the type.
pub record Keeps {S A : Type 0} (I : S → Type 0) (m : Handler S A) : Type 0 where
  pub run : (s : S) → I s → I (m s).1

continue-Keeps :
    {S A B : Type 0} (I : S → Type 0) (f : A → Handler S B) (r : Exit A × S)
    → ((a : A) → Keeps I (f a))
    → I r.1
    → I (continue f r).1
unfolding continue
continue-Keeps I f (value a, s) h i = (h a).run s i
continue-Keeps I f (failed x, s) h i = i
continue-Keeps I f (thrown t, s) h i = i

ended-Keeps : {S : Type 0} (J : S → Type 0) (r : Exit Void × S) → J r.1 → J (ended r).1
unfolding ended
ended-Keeps J (value a, s) i = i
ended-Keeps J (failed x, s) i = i
ended-Keeps J (thrown t, s) i = i

-- What a handler of errors keeps, where it handles one.
abbrev pub KeepsSome : {S A : Type 0} → (S → Type 0) → Option (Handler S A) → Type 0
KeepsSome J none = Unit {0}
KeepsSome J (some k) = Keeps J k

handled-Keeps :
    {S A : Type 0} (J : S → Type 0) (t : Thrown) (s : S) (o : Option (Handler S A))
    → KeepsSome J o
    → J s
    → J (handled t s o).1
unfolding handled
handled-Keeps J t s none p i = i
handled-Keeps J t s (some k) p i = p.run s i

caught-Keeps :
    {S A : Type 0} (J : S → Type 0) (handles : Thrown → Option (Handler S A)) (r : Exit A × S)
    → ((t : Thrown) → KeepsSome J (handles t))
    → J r.1
    → J (caught handles r).1
unfolding caught
caught-Keeps J handles (value a, s) h i = i
caught-Keeps J handles (failed x, s) h i = i
caught-Keeps J handles (thrown t, s) h i = handled-Keeps J t s (handles t) (h t) i

module _ {S : Type 0} {I : S → Type 0} where
  pub Keeps-bind :
      {A B : Type 0} {m : Handler S A} {f : A → Handler S B}
      → Keeps I m
      → ((a : A) → Keeps I (f a))
      → Keeps I (m >>= f)
  unfolding ◌>>=◌
  Keeps-bind {m} {f} hm hf = record { run = λ s i. continue-Keeps I f (m s) hf (hm.run s i) }

  pub Keeps-pure : {A : Type 0} (a : A) → Keeps I (pure a)
  unfolding pure
  Keeps-pure a = record { run = λ s i. i }

  pub Keeps-fail : {A : Type 0} (x : Fail) → Keeps I (fail {A = A} x)
  unfolding fail
  Keeps-fail x = record { run = λ s i. i }

  pub Keeps-throw : {A : Type 0} (t : Thrown) → Keeps I (throw {A = A} t)
  unfolding throw
  Keeps-throw t = record { run = λ s i. i }

  pub Keeps-fail_if : (c : Bool) (x : Fail) → Keeps I (fail_if c x)
  unfolding fail_if
  Keeps-fail_if true x = record { run = λ s i. i }
  Keeps-fail_if false x = record { run = λ s i. i }

  pub Keeps-or_fail : {A : Type 0} (o : Option A) (x : Fail) → Keeps I (or_fail o x)
  unfolding or_fail
  Keeps-or_fail none x = Keeps-fail x
  Keeps-or_fail (some a) x = Keeps-pure a

  pub Keeps-or_throw : {A : Type 0} (o : Option A) (t : Thrown) → Keeps I (or_throw o t)
  unfolding or_throw
  Keeps-or_throw none t = Keeps-throw t
  Keeps-or_throw (some a) t = Keeps-pure a

  pub Keeps-gets : {A : Type 0} (f : S → A) → Keeps I (gets f)
  unfolding gets
  Keeps-gets f = record { run = λ s i. i }

  pub Keeps-modify : (f : S → S) → ((s : S) → I s → I (f s)) → Keeps I (modify f)
  unfolding modify
  Keeps-modify f h = record { run = h }

  pub Keeps-when : (c : Bool) {body : Handler S Void} → Keeps I body → Keeps I (when c body)
  unfolding when
  Keeps-when true h = h
  Keeps-when false h = Keeps-pure tt

  pub Keeps-for_each :
      {A : Type 0} {body : A → Handler S Void} (xs : List A)
      → ((a : A) → Keeps I (body a))
      → Keeps I (for_each body xs)
  unfolding for_each
  Keeps-for_each [] h = Keeps-pure tt
  Keeps-for_each (x ∷ xs) h = Keeps-bind (h x) (λ _. Keeps-for_each xs h)

  pub Keeps-branch :
      {A : Type 0} (c : Bool) {m k : Handler S A} → Keeps I m → Keeps I k → Keeps I (branch c m k)
  unfolding branch
  Keeps-branch true hm hk = hm
  Keeps-branch false hm hk = hk

  pub Keeps-if_some :
      {A B : Type 0} (o : Option A) {m : Handler S B} {k : A → Handler S B}
      → Keeps I m
      → ((a : A) → Keeps I (k a))
      → Keeps I (if_some o m k)
  unfolding if_some
  Keeps-if_some none hm hk = hm
  Keeps-if_some (some a) hm hk = hk a

  pub Keeps-detached : {body : Handler S Void} → Keeps I body → Keeps I (detached body)
  unfolding detached
  Keeps-detached h = record { run = h.run }

  pub Keeps-call : {body : Handler S Void} → Keeps I body → Keeps I (call body)
  unfolding call
  Keeps-call {body} h = record { run = λ s i. ended-Keeps I (body s) (h.run s i) }

  pub Keeps-try_catch :
      {A : Type 0} {body : Handler S A} (handles : Thrown → Option (Handler S A))
      → Keeps I body
      → ((t : Thrown) → KeepsSome I (handles t))
      → Keeps I (try_catch body handles)
  unfolding try_catch
  Keeps-try_catch {body} handles hb hh = record {
    run = λ s i. caught-Keeps I handles (body s) hh (hb.run s i);
  }

  -- A test that does not end the handler is known to fail.
  pub Keeps-guard :
      {A : Type 0} (c : Bool) (x : Fail) (k : Void → Handler S A)
      → (c ≡ false → Keeps I (k tt))
      → Keeps I (fail_if c x >>= k)
  unfolding fail_if ◌>>=◌ continue
  Keeps-guard true x k h = record { run = λ s i. i }
  Keeps-guard false x k h = record { run = (h refl).run }

  -- What a read finds may be known from the invariant.
  pub Keeps-known :
      {A B : Type 0} (P : A → Type 0) (g : S → A) (f : A → Handler S B)
      → ((s : S) → I s → P (g s))
      → ((a : A) → P a → Keeps I (f a))
      → Keeps I (gets g >>= f)
  unfolding gets ◌>>=◌ continue
  Keeps-known P g f hg hf = record { run = λ s i. (hf (g s) (hg s i)).run s i }

  pub Keeps-some :
      {A B : Type 0} (o : Option A) (x : Fail) (f : A → Handler S B)
      → ((a : A) → o ≡ some a → Keeps I (f a))
      → Keeps I (or_fail o x >>= f)
  unfolding or_fail ◌>>=◌ continue fail pure
  Keeps-some none x f h = record { run = λ s i. i }
  Keeps-some (some a) x f h = record { run = (h a refl).run }

-- The steps that need no thought.
pub ruleset steps = (
  Keeps-bind, Keeps-pure, Keeps-fail, Keeps-throw, Keeps-fail_if, Keeps-or_fail, Keeps-or_throw,
  Keeps-gets, Keeps-when, Keeps-for_each, Keeps-detached, Keeps-call, Keeps-branch, Keeps-if_some,
)
