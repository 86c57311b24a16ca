-- ===== src/Social/ChatRate.antt =====
-- server/chat/ChatRateLimiter.ts with its limits of shared/game-data/social.ts.
use vaelmour_game.Prelude.{
  ℕ, ◌+◌, ◌≤◌, ◌≡◌, refl, Bool, true, false, ◌&&◌, Option, none, some, List, [], ◌∷◌, ◌==◌, ltb,
  if◌then◌else◌, arith, subst, ==_iff,
}

-- `direct` is PRIVATE.
pub data ChatChannel : Type 0 where
  global guild group direct : ChatChannel

unfoldable pub chat_rate_limit_ms : ChatChannel → ℕ
chat_rate_limit_ms ChatChannel.global = 2000
chat_rate_limit_ms ChatChannel.guild = 1000
chat_rate_limit_ms ChatChannel.group = 1000
chat_rate_limit_ms ChatChannel.direct = 1000

unfoldable pub channel_index : ChatChannel → ℕ
channel_index ChatChannel.global = 0
channel_index ChatChannel.guild = 1
channel_index ChatChannel.group = 2
channel_index ChatChannel.direct = 3

-- The map `lastSent`: its keys are written from a player and a channel.
abbrev pub LastSent : Type 0
LastSent = ℕ → ChatChannel → Option ℕ

-- The two keys are the same.
abbrev pub is_key : ℕ → ChatChannel → ℕ → ChatChannel → Bool
is_key p c q d = (p == q) && (channel_index c == channel_index d)

-- `current - previous < limit`, where nothing was sent at minus infinity
unfoldable pub too_soon : ℕ → Option ℕ → ℕ → Bool
too_soon limit none current = false
too_soon limit (some previous) current = ltb current (previous + limit)

abbrev pub sent_at : ℕ → ChatChannel → ℕ → LastSent → LastSent
sent_at p c current last q d = if is_key p c q d then some current else last q d

-- None is CHAT_RATE_LIMITED.
unfoldable pub consume : ℕ → ChatChannel → ℕ → LastSent → Option LastSent
consume p c current last =
    if too_soon (chat_rate_limit_ms c) (last p c) current
    then none
    else some (sent_at p c current last)

-- A message: the player, the channel, and what the clock says.
pub record Message : Type 0 where
  pub sender : ℕ
  pub channel : ChatChannel
  pub time : ℕ

-- The times at which the messages under one key pass, in a history of messages under any keys
unfoldable pub passed : ℕ → ChatChannel → List Message → LastSent → List ℕ
passed q d [] last = []
passed q d (m ∷ ms) last = elim (consume m.sender m.channel m.time last) [
  | none ↦ passed q d ms last
  | some last' ↦
      let rest = passed q d ms last' in
      if is_key m.sender m.channel q d then m.time ∷ rest else rest
]

abbrev pub After : ℕ → Option ℕ → ℕ → Type 0
After limit none t = Unit
After limit (some previous) t = previous + limit ≤ t

-- Each time is at least the limit after the one before it.
abbrev pub Spaced : ℕ → Option ℕ → List ℕ → Type 0
Spaced limit previous [] = Unit
Spaced limit previous (t ∷ ts) = After limit previous t × Spaced limit (some t) ts

same_channel : (c d : ChatChannel) → (channel_index c == channel_index d) ≡ true → c ≡ d
unfolding channel_index
same_channel ChatChannel.global ChatChannel.global h = refl
same_channel ChatChannel.global ChatChannel.guild h = cc
same_channel ChatChannel.global ChatChannel.group h = cc
same_channel ChatChannel.global ChatChannel.direct h = cc
same_channel ChatChannel.guild ChatChannel.global h = cc
same_channel ChatChannel.guild ChatChannel.guild h = refl
same_channel ChatChannel.guild ChatChannel.group h = cc
same_channel ChatChannel.guild ChatChannel.direct h = cc
same_channel ChatChannel.group ChatChannel.global h = cc
same_channel ChatChannel.group ChatChannel.guild h = cc
same_channel ChatChannel.group ChatChannel.group h = refl
same_channel ChatChannel.group ChatChannel.direct h = cc
same_channel ChatChannel.direct ChatChannel.global h = cc
same_channel ChatChannel.direct ChatChannel.guild h = cc
same_channel ChatChannel.direct ChatChannel.group h = cc
same_channel ChatChannel.direct ChatChannel.direct h = refl

both_true : (a b : Bool) → (a && b) ≡ true → (a ≡ true) × (b ≡ true)
both_true a b h = (ground arith, ground arith)

same_key :
    (p : ℕ) (c : ChatChannel) (q : ℕ) (d : ChatChannel) → is_key p c q d ≡ true → (p ≡ q) × (c ≡ d)
same_key p c q d h =
    let (player, channel) = both_true (p == q) (channel_index c == channel_index d) h in
    ((==_iff p q).0 player, same_channel c d channel)

sent_at-same :
    (p : ℕ) (c : ChatChannel) (t : ℕ) (last : LastSent) (q : ℕ) (d : ChatChannel)
    → is_key p c q d ≡ true
    → sent_at p c t last q d ≡ some t
sent_at-same p c t last q d h = rw h refl

sent_at-other :
    (p : ℕ) (c : ChatChannel) (t : ℕ) (last : LastSent) (q : ℕ) (d : ChatChannel)
    → is_key p c q d ≡ false
    → sent_at p c t last q d ≡ last q d
sent_at-other p c t last q d h = rw h refl

not_soon-After : (limit : ℕ) (o : Option ℕ) (t : ℕ) → too_soon limit o t ≡ false → After limit o t
unfolding too_soon
not_soon-After limit none t h = tt
not_soon-After limit (some previous) t h = ground arith

-- One message more, which passes if it is not too soon, and counts if it is of the key.
stepped :
    (limit : ℕ) (o : Option ℕ) (t : ℕ) (soon mine : Bool) (later : LastSent → List ℕ)
    (old new : LastSent)
    → Spaced limit o (later old)
    → (soon ≡ false → mine ≡ true → After limit o t × Spaced limit (some t) (later new))
    → (mine ≡ false → Spaced limit o (later new))
    → Spaced limit o (elim (if soon then none else some new) as (λ _. List ℕ) [
      | none ↦ later old
      | some last ↦ if mine then t ∷ later last else later last
    ])
stepped limit o t true mine later old new h own other = h
stepped limit o t false true later old new h own other = own refl refl
stepped limit o t false false later old new h own other = other refl

-- Whatever the clock says, the messages of a player on a channel that pass are at least the limit of
-- the channel apart.
pub passed-Spaced :
    (q : ℕ) (d : ChatChannel) (ms : List Message) (last : LastSent)
    → Spaced (chat_rate_limit_ms d) (last q d) (passed q d ms last)
unfolding passed consume
passed-Spaced q d [] last = tt
passed-Spaced q d (m ∷ ms) last =
    let c = m.channel in
    let new = sent_at m.sender c m.time last in
    let rest = passed-Spaced q d ms new in
    let times = passed q d ms new in
    let limit = chat_rate_limit_ms d in
    stepped limit (last q d) m.time (too_soon (chat_rate_limit_ms c) (last m.sender c) m.time)
      (is_key m.sender c q d) (passed q d ms) last new (passed-Spaced q d ms last)
      (λ late mine.
        let (player, channel) = same_key m.sender c q d mine in
        let in_time : too_soon limit (last q d) m.time ≡ false = rw (← player, ← channel) late in
        (
          not_soon-After limit (last q d) m.time in_time,
          subst (λ o. Spaced limit o times) (sent_at-same m.sender c m.time last q d mine) rest,
        ))
      (λ other.
        subst (λ o. Spaced limit o times) (sent_at-other m.sender c m.time last q d other) rest)
