-- ===== src/Kv/Lock/Exclusion.antt =====
-- Many callers of `withLock` of kv.ts on one backend, in any order, with the clock going on. The
-- critical section is whatever happens between a caller's entry and its release.
use ts_plugins.Common.{
  ℕ, ◌+◌, ◌<◌, ◌≡◌, ◌≢◌, refl, ap, sym, ◌∙◌, Bool, true, false, Option, none, some, arith, Text,
  text_eq, ◌==◌, ==_iff, if◌then◌else◌, inl, inr, Bool-cases, Option-cases, List, [], ◌∷◌, ◌++◌,
  All,
}
use mathlib.Core.Path.{subst}
use ts_plugins.Common.Maps
use ts_plugins.Kv.{MemoryLock, MemoryKvBackend}
use ts_plugins.Kv.Lock.{entered, OnBusy, throw_busy, skip, enter, release}
use ts_plugins.Kv.Lock.Ownership.{
  active_lock, lease, busy_answer, enter_busy, enter_free, locks-enter_ne, locks-release,
}

-- A caller inside its critical section: the lock's full key, its token, the end of its lease.
pub record Section : Type 0 where
  pub key : Text
  pub token : Text
  pub deadline : ℕ

pub record World : Type 0 where
  pub now : ℕ
  pub backend : MemoryKvBackend
  pub sections : List Section

-- `randomUUID` gives a token that nobody inside has.
abbrev pub IsFresh : Text → List Section → Type 0
IsFresh token sections = All (λ s. (s.token == token) ≡ false) sections

pub data Step : World → World → Type 0 where
  tick : (w : World) (n : ℕ) → Step w (record w { now = w.now + n })
  come :
      (w : World) (key token : Text) (ttl : Option ℕ) (on_busy : Option OnBusy)
      → IsFresh token w.sections
      → (enter w.backend key token ttl on_busy w.now).0 ≡ entered
      → Step w (record w {
        backend = (enter w.backend key token ttl on_busy w.now).1;
        sections = record { key = key; token = token; deadline = w.now + lease ttl } ∷ w.sections;
      })
  go :
      (w : World) (before after : List Section) (s : Section)
      → w.sections ≡ before ++ s ∷ after
      → Step w (record w { backend = release w.backend s.key s.token; sections = before ++ after })

pub data Reach (w : World) : World → Type 0 where
  here : Reach w w
  next : {u v : World} → Reach w u → Step u v → Reach w v

-- A section whose lease has not run out is the one that the lock's entry names.
abbrev pub IsNamed : ℕ → MemoryKvBackend → Section → Type 0
IsNamed now backend s =
    now < s.deadline
    → Maps.get backend.locks s.key ≡ some (record { token = s.token; expires_at = s.deadline })

abbrev pub IsExclusive : World → Type 0
IsExclusive w = All (IsNamed w.now w.backend) w.sections

tick_keeps :
    (now n : ℕ) (backend : MemoryKvBackend) (sections : List Section)
    → All (IsNamed now backend) sections
    → All (IsNamed (now + n) backend) sections
tick_keeps now n backend [] h = tt
tick_keeps now n backend (s ∷ sections) h =
    (λ young. h.0 (omega arith), tick_keeps now n backend sections h.1)

busy_ne : (b : Option OnBusy) → busy_answer b ≢ entered
busy_ne none e = cc
busy_ne (some throw_busy) e = cc
busy_ne (some skip) e = cc

young_active :
    (now deadline : ℕ) (token : Text)
    → now < deadline
    → active_lock now (some (record { token = token; expires_at = deadline })) ≢ none
young_active now deadline token h e = ground arith

-- Nobody enters where a lease has not run out.
enter_means_free :
    (backend : MemoryKvBackend) (key token : Text) (ttl : Option ℕ) (on_busy : Option OnBusy)
    (now : ℕ)
    → (enter backend key token ttl on_busy now).0 ≡ entered
    → active_lock now (Maps.get backend.locks key) ≡ none
enter_means_free backend key token ttl on_busy now h =
    elim (Option-cases (active_lock now (Maps.get backend.locks key))) [
      | inl free ↦ free
      | inr (lock, held) ↦ absurd (
          busy_ne on_busy
            (sym (ap (λ r. r.0) (enter_busy backend key token ttl on_busy now lock held)) ∙ h))
    ]

come_keeps :
    (backend : MemoryKvBackend) (key token : Text) (ttl : Option ℕ) (on_busy : Option OnBusy)
    (now : ℕ) (s : Section)
    → (enter backend key token ttl on_busy now).0 ≡ entered
    → IsNamed now backend s
    → IsNamed now (enter backend key token ttl on_busy now).1 s
come_keeps backend key token ttl on_busy now s h named young = elim (Bool-cases (key == s.key)) [
  | inl same ↦ absurd (
      young_active now s.deadline s.token young (
        ap (active_lock now)
          (sym (named young) ∙ ap (Maps.get backend.locks) (sym ((==_iff key s.key).0 same)))
        ∙ enter_means_free backend key token ttl on_busy now h))
  | inr differ ↦ locks-enter_ne backend key s.key token ttl on_busy now differ ∙ named young
]

go_keeps :
    (backend : MemoryKvBackend) (key token : Text) (now : ℕ) (s : Section)
    → (s.token == token) ≡ false
    → IsNamed now backend s
    → IsNamed now (release backend key token) s
go_keeps backend key token now s other named young =
    locks-release backend key token s.key _ (named young) ∙ kept (key == s.key)
  where
    lock : MemoryLock
    lock = record { token = s.token; expires_at = s.deadline }

    kept :
        (b : Bool)
        → (if b then (if s.token == token then none else some lock) else some lock) ≡ some lock
    kept true = rw other
    kept false = refl

come_keeps_every :
    (backend : MemoryKvBackend) (key token : Text) (ttl : Option ℕ) (on_busy : Option OnBusy)
    (now : ℕ) (sections : List Section)
    → (enter backend key token ttl on_busy now).0 ≡ entered
    → All (IsNamed now backend) sections
    → All (IsNamed now (enter backend key token ttl on_busy now).1) sections
come_keeps_every backend key token ttl on_busy now [] h all = tt
come_keeps_every backend key token ttl on_busy now (s ∷ sections) h all = (
  come_keeps backend key token ttl on_busy now s h all.0,
  come_keeps_every backend key token ttl on_busy now sections h all.1,
)

go_keeps_every :
    (backend : MemoryKvBackend) (key token : Text) (now : ℕ) (sections : List Section)
    → IsFresh token sections
    → All (IsNamed now backend) sections
    → All (IsNamed now (release backend key token)) sections
go_keeps_every backend key token now [] fresh all = tt
go_keeps_every backend key token now (s ∷ sections) fresh all = (
  go_keeps backend key token now s fresh.0 all.0,
  go_keeps_every backend key token now sections fresh.1 all.1,
)

-- No token twice.
abbrev pub AreDistinct : List Section → Type 0
AreDistinct [] = Unit
AreDistinct (s ∷ sections) = IsFresh s.token sections × AreDistinct sections

All-remove :
    (P : Section → Type 0) (before : List Section) (s : Section) (after : List Section)
    → All P (before ++ s ∷ after)
    → P s × All P (before ++ after)
All-remove P [] s after h = h
All-remove P (x ∷ before) s after h =
    let (at, others) = All-remove P before s after h.1 in (at, (h.0, others))

token_sym : (s t : Text) → (s == t) ≡ false → (t == s) ≡ false
token_sym s t h = ground (arith, ==_iff s t, ==_iff t s)

AreDistinct-remove :
    (before : List Section) (s : Section) (after : List Section)
    → AreDistinct (before ++ s ∷ after)
    → IsFresh s.token (before ++ after) × AreDistinct (before ++ after)
AreDistinct-remove [] s after h = h
AreDistinct-remove (x ∷ before) s after h =
    let (fresh, distinct) = AreDistinct-remove before s after h.1 in
    let (ne, fresh_x) = All-remove (λ y. (y.token == x.token) ≡ false) before s after h.0 in
    ((token_sym s.token x.token ne, fresh), (fresh_x, distinct))

pub record IsSound (w : World) : Type 0 where
  pub exclusive : IsExclusive w
  pub distinct : AreDistinct w.sections

Step-IsSound : {w v : World} → Step w v → IsSound w → IsSound v
Step-IsSound (tick w n) h = record {
  exclusive = tick_keeps w.now n w.backend w.sections h.exclusive;
  distinct = h.distinct;
}
Step-IsSound (come w key token ttl on_busy fresh inside) h = record {
  exclusive = (
    λ young.
        (enter_free w.backend key token ttl on_busy w.now
          (enter_means_free w.backend key token ttl on_busy w.now inside)).1,
    come_keeps_every w.backend key token ttl on_busy w.now w.sections inside h.exclusive,
  );
  distinct = (fresh, h.distinct);
}
Step-IsSound (go w before after s e) h =
    let named =
      All-remove (IsNamed w.now w.backend) before s after
        (subst (All (IsNamed w.now w.backend)) e h.exclusive) in
    let (fresh, distinct) = AreDistinct-remove before s after (subst AreDistinct e h.distinct) in
    record {
      exclusive = go_keeps_every w.backend s.key s.token w.now (before ++ after) fresh named.1;
      distinct = distinct;
    }

Reach-IsSound : {w v : World} → IsSound w → Reach w v → IsSound v
Reach-IsSound h here = h
Reach-IsSound h (next r st) = Step-IsSound st (Reach-IsSound h r)

-- Of two callers inside the same lock at one time, the lease of one has run out.
abbrev pub Excludes : ℕ → Section → Section → Type 0
Excludes now s t = s.key ≡ t.key → now < s.deadline → now < t.deadline → ⊥

abbrev pub AtMostOne : ℕ → List Section → Type 0
AtMostOne now [] = Unit
AtMostOne now (s ∷ sections) = All (Excludes now s) sections × AtMostOne now sections

token_of : Text → Option MemoryLock → Text
token_of t none = t
token_of t (some lock) = lock.token

excludes :
    (now : ℕ) (backend : MemoryKvBackend) (s t : Section)
    → IsNamed now backend s
    → IsNamed now backend t
    → (t.token == s.token) ≡ false
    → Excludes now s t
unfolding token_of
excludes now backend s t hs ht ne e young_s young_t =
    let same : s.token ≡ t.token =
      ap (token_of s.token) (sym (hs young_s) ∙ ap (Maps.get backend.locks) e ∙ ht young_t) in
    cc (ne, (==_iff t.token s.token).1 (sym same))

Excludes-every :
    (now : ℕ) (backend : MemoryKvBackend) (s : Section) (sections : List Section)
    → IsNamed now backend s
    → All (IsNamed now backend) sections
    → IsFresh s.token sections
    → All (Excludes now s) sections
Excludes-every now backend s [] hs h fresh = tt
Excludes-every now backend s (t ∷ sections) hs h fresh =
    (excludes now backend s t hs h.0 fresh.0, Excludes-every now backend s sections hs h.1 fresh.1)

at_most_one :
    (now : ℕ) (backend : MemoryKvBackend) (sections : List Section)
    → All (IsNamed now backend) sections
    → AreDistinct sections
    → AtMostOne now sections
at_most_one now backend [] h d = tt
at_most_one now backend (s ∷ sections) h d =
    (Excludes-every now backend s sections h.0 h.1 d.0, at_most_one now backend sections h.1 d.1)

abbrev pub start : ℕ → MemoryKvBackend → World
start now backend = record { now = now; backend = backend; sections = [] }

-- Mutual exclusion: however callers enter and leave the locks of a backend, at any time at most
-- one caller with a lease that has not run out is inside each lock.
pub mutual_exclusion :
    (now : ℕ) (backend : MemoryKvBackend) (w : World)
    → Reach (start now backend) w
    → AtMostOne w.now w.sections
mutual_exclusion now backend w r =
    let sound =
      Reach-IsSound {w = start now backend} (record { exclusive = tt; distinct = tt }) r in
    at_most_one w.now w.backend w.sections sound.exclusive sound.distinct
