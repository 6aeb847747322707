-- ===== src/Kv/Lock/Ownership.antt =====
-- Who holds a lock of `withLock` in kv.ts, and who may release it.
use ts_plugins.Common.{
  ℕ, ◌+◌, ◌*◌, ◌≡◌, refl, ap, ◌∙◌, true, false, Option, none, some, arith, leb, Text, text_eq, ◌==◌,
  ==_iff, ==_refl, if◌then◌else◌, ◌++◌,
}
use ts_plugins.Common.Maps
use ts_plugins.Kv.{
  MemoryLock, MemoryKvBackend, lock_segment, prefix_of, key_regex, full_key, lock_busy,
}
use ts_plugins.Kv.Lock.{
  Entry, entered, skipped, refused, OnBusy, throw_busy, skip, Locked, returned, busy_null, failed,
  enter, release, read_lock, enter_at, with_lock, lock_at, run_entered,
}

-- The lock that counts at a time.
abbrev pub active_lock : ℕ → Option MemoryLock → Option MemoryLock
active_lock now none = none
active_lock now (some lock) = if leb lock.expires_at now then none else some lock

read_lock-active :
    (backend : MemoryKvBackend) (key : Text) (now : ℕ)
    → (read_lock backend key now).0 ≡ active_lock now (Maps.get backend.locks key)
unfolding read_lock
read_lock-active backend key now = ground arith

read_lock_kept :
    (backend : MemoryKvBackend) (key : Text) (now : ℕ) (lock : MemoryLock)
    → active_lock now (Maps.get backend.locks key) ≡ some lock
    → (read_lock backend key now).1 ≡ backend
unfolding read_lock
read_lock_kept backend key now lock h = ground arith

-- Other locks stay.
locks-read_lock_ne :
    (backend : MemoryKvBackend) (key j : Text) (now : ℕ)
    → (key == j) ≡ false
    → Maps.get (read_lock backend key now).1.locks j ≡ Maps.get backend.locks j
unfolding read_lock
locks-read_lock_ne backend key j now h = ground (arith, Maps.get-delete backend.locks key j)

abbrev pub busy_answer : Option OnBusy → Entry
busy_answer none = refused
busy_answer (some throw_busy) = refused
busy_answer (some skip) = skipped

abbrev pub lease : Option ℕ → ℕ
lease none = 30 * 1000
lease (some t) = t * 1000

-- Somebody else's lock that has not expired keeps everyone out and stays as it is: the caller is
-- told to skip or gets an error, as its options say.
pub enter_busy :
    (backend : MemoryKvBackend) (key token : Text) (ttl : Option ℕ) (on_busy : Option OnBusy)
    (now : ℕ) (lock : MemoryLock)
    → active_lock now (Maps.get backend.locks key) ≡ some lock
    → enter backend key token ttl on_busy now ≡ (busy_answer on_busy, backend)
unfolding enter
enter_busy backend key token ttl none now lock h =
    ground (arith, read_lock-active backend key now, read_lock_kept backend key now lock h)
enter_busy backend key token ttl (some throw_busy) now lock h =
    ground (arith, read_lock-active backend key now, read_lock_kept backend key now lock h)
enter_busy backend key token ttl (some skip) now lock h =
    ground (arith, read_lock-active backend key now, read_lock_kept backend key now lock h)

enter-enter_at :
    (backend : MemoryKvBackend) (key token : Text) (ttl : Option ℕ) (on_busy : Option OnBusy)
    (now : ℕ)
    → enter backend key token ttl on_busy now
      ≡ enter_at
          (read_lock backend key now).1
          key
          token
          (elim ttl [ none ↦ 30 | some t ↦ t ])
          now
          (elim on_busy [ none ↦ throw_busy | some b ↦ b ])
          (read_lock backend key now).0
unfolding enter
enter-enter_at backend key token ttl on_busy now = refl

enter_at_free :
    (backend : MemoryKvBackend) (key token : Text) (ttl now : ℕ) (busy : OnBusy)
    → ((enter_at backend key token ttl now busy none).0 ≡ entered)
      × (Maps.get (enter_at backend key token ttl now busy none).1.locks key
          ≡ some (record { token = token; expires_at = now + ttl * 1000 }))
enter_at_free backend key token ttl now busy =
    (refl, Maps.get-set backend.locks key key _ ∙ rw (==_refl key))

locks-enter_at_ne :
    (backend : MemoryKvBackend) (key j token : Text) (ttl now : ℕ) (busy : OnBusy)
    (existing : Option MemoryLock)
    → (key == j) ≡ false
    → Maps.get (enter_at backend key token ttl now busy existing).1.locks j
      ≡ Maps.get backend.locks j
locks-enter_at_ne backend key j token ttl now busy none h =
    Maps.get-set backend.locks key j _ ∙ rw h
locks-enter_at_ne backend key j token ttl now skip (some lock) h = refl
locks-enter_at_ne backend key j token ttl now throw_busy (some lock) h = refl

-- Where no lock counts, the caller enters, and the lock is now its own until its lease ends.
pub enter_free :
    (backend : MemoryKvBackend) (key token : Text) (ttl : Option ℕ) (on_busy : Option OnBusy)
    (now : ℕ)
    → active_lock now (Maps.get backend.locks key) ≡ none
    → ((enter backend key token ttl on_busy now).0 ≡ entered)
      × (Maps.get (enter backend key token ttl on_busy now).1.locks key
          ≡ some (record { token = token; expires_at = now + lease ttl }))
enter_free backend key token none on_busy now h =
    rw (enter-enter_at, read_lock-active, h)
      (enter_at_free (read_lock backend key now).1 key token 30 now
        (elim on_busy [ none ↦ throw_busy | some b ↦ b ]))
enter_free backend key token (some t) on_busy now h =
    rw (enter-enter_at, read_lock-active, h)
      (enter_at_free (read_lock backend key now).1 key token t now
        (elim on_busy [ none ↦ throw_busy | some b ↦ b ]))

pub locks-enter_ne :
    (backend : MemoryKvBackend) (key j token : Text) (ttl : Option ℕ) (on_busy : Option OnBusy)
    (now : ℕ)
    → (key == j) ≡ false
    → Maps.get (enter backend key token ttl on_busy now).1.locks j ≡ Maps.get backend.locks j
locks-enter_ne backend key j token ttl on_busy now h =
    rw enter-enter_at
      (locks-enter_at_ne _ key j token _ now _ _ h ∙ locks-read_lock_ne backend key j now h)

-- What is left under a key after a release: the lock goes only if its token is the releaser's.
pub locks-release :
    (backend : MemoryKvBackend) (key token j : Text) (lock : MemoryLock)
    → Maps.get backend.locks j ≡ some lock
    → Maps.get (release backend key token).locks j
      ≡ (if key == j then (if lock.token == token then none else some lock) else some lock)
unfolding release
locks-release backend key token j lock h =
    ground (arith, Maps.get-delete backend.locks key j, ==_iff key j)

release_absent :
    (backend : MemoryKvBackend) (key token : Text)
    → Maps.get backend.locks key ≡ none
    → release backend key token ≡ backend
unfolding release
release_absent backend key token h = rw (h, release)

-- What stands under the lock's key once its holder is through, by what stood there before.
abbrev pub left_by : Text → Option MemoryLock → Option MemoryLock
left_by token none = none
left_by token (some lock) = if lock.token == token then none else some lock

locks-release_self :
    (backend : MemoryKvBackend) (key token : Text) (o : Option MemoryLock)
    → Maps.get backend.locks key ≡ o
    → Maps.get (release backend key token).locks key ≡ left_by token o
locks-release_self backend key token none h =
    ap (λ b. Maps.get b.locks key) (release_absent backend key token h) ∙ h
locks-release_self backend key token (some lock) h =
    locks-release backend key token key lock h ∙ rw (==_refl key)

-- What a caller that was kept out gets: `null` for `skip`, an error otherwise.
abbrev pub busy_result {ℓ} : {A : Type ℓ} → Option OnBusy → Locked A
busy_result (some skip) = busy_null
busy_result (some throw_busy) = failed lock_busy
busy_result none = failed lock_busy

full_key_lock :
    (namespace key : Text)
    → key_regex key ≡ true
    → full_key namespace lock_segment key ≡ some (prefix_of namespace lock_segment ++ key)
unfolding full_key
full_key_lock namespace key h = rw h

module _ {ℓ} {A : Type ℓ} (namespace : Text) where
  with_lock-run_entered :
      (backend : MemoryKvBackend) (key token : Text) (fn : MemoryKvBackend → A × MemoryKvBackend)
      (ttl : Option ℕ) (on_busy : Option OnBusy) (now : ℕ)
      → key_regex key ≡ true
      → with_lock namespace backend key token fn ttl on_busy now
        ≡ run_entered
            (prefix_of namespace lock_segment ++ key)
            token
            fn
            (enter backend (prefix_of namespace lock_segment ++ key) token ttl on_busy now)
  unfolding with_lock
  with_lock-run_entered backend key token fn ttl on_busy now valid =
      ap (lock_at backend token fn ttl on_busy now) (full_key_lock namespace key valid)

  run_entered_of :
      (k token : Text) (fn : MemoryKvBackend → A × MemoryKvBackend) (e : Entry × MemoryKvBackend)
      → e.0 ≡ entered
      → run_entered k token fn e ≡ (returned (fn e.1).0, release (fn e.1).1 k token)
  run_entered_of k token fn (entered, b) h = refl
  run_entered_of k token fn (skipped, b) h = cc
  run_entered_of k token fn (refused, b) h = cc

  -- `withLock` with a valid key and a free lock runs `fn` with the lock held and returns what `fn`
  -- gives, an error included; its own lock is gone afterwards, and a lock that somebody else has
  -- taken in the meantime stays.
  pub with_lock_free :
      (backend : MemoryKvBackend) (key token : Text) (fn : MemoryKvBackend → A × MemoryKvBackend)
      (ttl : Option ℕ) (on_busy : Option OnBusy) (now : ℕ)
      → key_regex key ≡ true
      → active_lock now (Maps.get backend.locks (prefix_of namespace lock_segment ++ key)) ≡ none
      → let k = prefix_of namespace lock_segment ++ key in
        let held = (enter backend k token ttl on_busy now).1 in
        ((with_lock namespace backend key token fn ttl on_busy now).0 ≡ returned (fn held).0)
        × (Maps.get held.locks k ≡ some (record { token = token; expires_at = now + lease ttl }))
        × (Maps.get (with_lock namespace backend key token fn ttl on_busy now).1.locks k
            ≡ left_by token (Maps.get (fn held).1.locks k))
  with_lock_free backend key token fn ttl on_busy now valid free =
      let k = prefix_of namespace lock_segment ++ key in
      let inside = enter_free backend k token ttl on_busy now free in
      let ran =
        with_lock-run_entered backend key token fn ttl on_busy now valid
        ∙ run_entered_of k token fn (enter backend k token ttl on_busy now) inside.0 in
      (
        ap (λ r. r.0) ran,
        inside.1,
        ap (λ r. Maps.get r.1.locks k) ran
            ∙ locks-release_self (fn (enter backend k token ttl on_busy now).1).1 k token _ refl,
      )

  -- `withLock` on a lock that somebody holds never runs `fn` and changes nothing.
  pub with_lock_busy :
      (backend : MemoryKvBackend) (key token : Text) (fn : MemoryKvBackend → A × MemoryKvBackend)
      (ttl : Option ℕ) (on_busy : Option OnBusy) (now : ℕ) (lock : MemoryLock)
      → key_regex key ≡ true
      → active_lock now (Maps.get backend.locks (prefix_of namespace lock_segment ++ key))
        ≡ some lock
      → with_lock namespace backend key token fn ttl on_busy now ≡ (busy_result on_busy, backend)
  with_lock_busy backend key token fn ttl on_busy now lock valid held =
      with_lock-run_entered backend key token fn ttl on_busy now valid
      ∙ ap (run_entered (prefix_of namespace lock_segment ++ key) token fn)
          (enter_busy backend _ token ttl on_busy now lock held)
      ∙ shut_out on_busy
    where
      shut_out :
          (b : Option OnBusy)
          → run_entered (prefix_of namespace lock_segment ++ key) token fn (busy_answer b, backend)
            ≡ (busy_result b, backend)
      shut_out none = refl
      shut_out (some throw_busy) = refl
      shut_out (some skip) = refl
