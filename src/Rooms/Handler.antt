-- ===== src/Rooms/Handler.antt =====
-- A handler of server/rooms/RoomManager.ts as a function on the manager's state. Unlike a
-- transaction, a handler that fails or throws keeps the writes that it has made.
use vaelmour_game.Prelude.{Bool, true, false, Option, none, some, List, [], ◌∷◌}
use vaelmour_game.Economy.Monad.{Error}
use vaelmour_game.Players.Attempt.{Code}

-- The codes of `fail`; `silent` is an early return that sends nothing.
pub data Fail : Type 0 where
  server_shutting_down already_in_party leader_only party_locked invalid_floor floor_locked : Fail
  party_not_found party_full application_not_found invalid_state already_started : Fail
  party_too_small party_member_disconnected not_ready party_floor_locked not_in_combat : Fail
  stale_round player_dead invalid_action attack_required potion_cooldown no_potions : Fail
  invalid_vote party_invite_unavailable rift_reconnect_expired silent : Fail
  economy_error : Error → Fail
  service_error : Code → Fail

-- What the services throw, the reads of what is not there, and a loop of the model that has run out
-- of rounds.
pub data Thrown : Type 0 where
  economy : Error → Thrown
  service : Code → Thrown
  no_player marker_missing unknown_floor unknown_enemy type_error : Thrown
  out_of_rounds : Thrown

pub data Exit (A : Type 0) : Type 0 where
  value : A → Exit A
  failed : Fail → Exit A
  thrown : Thrown → Exit A

abbrev pub Handler : Type 0 → Type 0 → Type 0
Handler S A = S → Exit A × S

abbrev pub Void : Type 0
Void = Unit {0}

module _ {S : Type 0} where
  unfoldable pub pure : {A : Type 0} → A → Handler S A
  pure a s = (value a, s)

  unfoldable pub fail : {A : Type 0} → Fail → Handler S A
  fail f s = (failed f, s)

  unfoldable pub throw : {A : Type 0} → Thrown → Handler S A
  throw t s = (thrown t, s)

  unfoldable pub fail_if : Bool → Fail → Handler S Void
  fail_if true f s = (failed f, s)
  fail_if false f s = (value tt, s)

  unfoldable pub or_fail : {A : Type 0} → Option A → Fail → Handler S A
  or_fail none f = fail f
  or_fail (some a) f = pure a

  unfoldable pub or_throw : {A : Type 0} → Option A → Thrown → Handler S A
  or_throw none t = throw t
  or_throw (some a) t = pure a

  unfoldable pub gets : {A : Type 0} → (S → A) → Handler S A
  gets f s = (value (f s), s)

  unfoldable pub modify : (S → S) → Handler S Void
  modify f s = (value tt, f s)

-- The rest of a chain, after an exit.
unfoldable pub continue : {S A B : Type 0} → (A → Handler S B) → Exit A × S → Exit B × S
continue f (value a, s) = f a s
continue f (failed x, s) = (failed x, s)
continue f (thrown t, s) = (thrown t, s)

infixl 5 ◌>>=◌ ◌>>◌
unfoldable pub ◌>>=◌ : {S A B : Type 0} → Handler S A → (A → Handler S B) → Handler S B
◌>>=◌ m f s = continue f (m s)

abbrev pub ◌>>◌ : {S A B : Type 0} → Handler S A → Handler S B → Handler S B
m >> k = m >>= λ _. k

-- `if (c) { body }`
unfoldable pub when : {S : Type 0} → Bool → Handler S Void → Handler S Void
when true body = body
when false body = pure tt

-- `for (const x of xs) body(x)`
unfoldable pub for_each : {S A : Type 0} → (A → Handler S Void) → List A → Handler S Void
for_each body [] = pure tt
for_each body (x ∷ xs) = body x >> for_each body xs

-- What is done about an error, if anything.
unfoldable pub handled : {S A : Type 0} → Thrown → S → Option (Handler S A) → Exit A × S
handled t s none = (thrown t, s)
handled t s (some k) = k s

unfoldable pub caught : {S A : Type 0} → (Thrown → Option (Handler S A)) → Exit A × S → Exit A × S
caught handles (value a, s) = (value a, s)
caught handles (failed x, s) = (failed x, s)
caught handles (thrown t, s) = handled t s (handles t)

-- `try { body } catch (error) { ... }`, for the errors that `handles` names
unfoldable pub try_catch :
    {S A : Type 0} → Handler S A → (Thrown → Option (Handler S A)) → Handler S A
try_catch body handles s = caught handles (body s)

-- A body whose errors the source lets go: `void promise`.
unfoldable pub detached : {S : Type 0} → Handler S Void → Handler S Void
detached body s = (value tt, (body s).1)

-- An early return of a method ends the method, not its caller.
unfoldable pub ended : {S : Type 0} → Exit Void × S → Exit Void × S
ended (value a, s) = (value a, s)
ended (failed x, s) = (value tt, s)
ended (thrown t, s) = (thrown t, s)

unfoldable pub call : {S : Type 0} → Handler S Void → Handler S Void
call body s = ended (body s)

-- `if (c) { m } else { k }`
unfoldable pub branch : {S A : Type 0} → Bool → Handler S A → Handler S A → Handler S A
branch true m k = m
branch false m k = k

-- `if (!o) { m } else { k(o) }`
unfoldable pub if_some : {S A B : Type 0} → Option A → Handler S B → (A → Handler S B) → Handler S B
if_some none m k = m
if_some (some a) m k = k a
