-- ===== src/Events/Buffers.antt =====
-- What a subscriber finds in its channel.
use do_daemon.Prelude.{
  Bool-cases, List, Option, [], ap, append-nil, append_assoc, arith, drop, if◌then◌else◌, inl, inr,
  length, length-append, length-drop, ltb, ltb→lt, lt→ltb, none, refl, some, some_inj, suc, sym,
  true, zero, ℕ, ◌++◌, ◌+◌, ◌-◌, ◌<◌, ◌==◌, ◌∙◌, ◌∷◌, ◌≡◌, ◌≤◌,
}
use do_daemon.Events.{Bus, Channel, Event, offer, publish, publish_all, stamp}

-- The last `n` of a list.
abbrev pub keep_last {ℓ} : {A : Type ℓ} → ℕ → List A → List A
keep_last n xs = drop (length xs - n) xs

abbrev pub IsWellFormed : {A : Type 0} → Channel A → Type 0
IsWellFormed c = (0 < c.cap) × (length c.queue ≤ c.cap)

module _ {A : Type 0} where
  drop-append-le :
      (n : ℕ) (xs ys : List (Event A)) → n ≤ length xs → drop n (xs ++ ys) ≡ drop n xs ++ ys
  drop-append-le zero xs ys h = refl
  drop-append-le (suc n) [] ys h = absurd (omega arith)
  drop-append-le (suc n) (x ∷ xs) ys h = drop-append-le n xs ys (omega arith)

  drop-nil : (n : ℕ) → drop {A = Event A} n [] ≡ []
  drop-nil zero = refl
  drop-nil (suc n) = refl

  drop-drop : (j k : ℕ) (xs : List (Event A)) → drop j (drop k xs) ≡ drop (k + j) xs
  drop-drop j zero xs = let e : j ≡ zero + j = omega arith in ap (λ n. drop n xs) e
  drop-drop j (suc k) [] = drop-nil j ∙ sym (drop-nil (suc k + j))
  drop-drop j (suc k) (x ∷ xs) =
      let e : suc (k + j) ≡ suc k + j = omega arith in
      drop-drop j k xs ∙ ap (λ n. drop n (x ∷ xs)) e

  keep_last-append :
      (n : ℕ) (xs ys : List (Event A)) → keep_last n (keep_last n xs ++ ys) ≡ keep_last n (xs ++ ys)
  keep_last-append n xs ys =
      let k = length xs - n in
      let front = drop-append-le k xs ys (omega arith) in
      rw (← front) (
        drop-drop (length (drop k (xs ++ ys)) - n) k (xs ++ ys)
        ∙ ap (λ j. drop j (xs ++ ys))
            (omega (arith, length-drop k (xs ++ ys), length-append xs ys)))

  length-keep_last : (n : ℕ) (xs : List (Event A)) → length (keep_last n xs) ≤ n
  length-keep_last n xs = omega (arith, length-drop (length xs - n) xs)

  keep_last_short : (n : ℕ) (xs : List (Event A)) → length xs ≤ n → keep_last n xs ≡ xs
  keep_last_short n xs h = let z : length xs - n ≡ 0 = omega arith in rw z refl

  keep_last_one :
      (n : ℕ) (xs : List (Event A)) (ev : Event A)
      → length xs ≡ n
      → 0 < n
      → keep_last n (xs ++ (ev ∷ [])) ≡ drop 1 xs ++ (ev ∷ [])
  keep_last_one n xs ev h p =
      let one : length (xs ++ (ev ∷ [])) - n ≡ 1 = omega (arith, length-append xs (ev ∷ [])) in
      rw one (drop-append-le 1 xs (ev ∷ []) (omega arith))

  -- A publication leaves the newest events, as many as the channel holds.
  offer-keep_last :
      (ev : Event A) (c : Channel A)
      → IsWellFormed c
      → ((offer ev c).queue ≡ keep_last c.cap (c.queue ++ (ev ∷ []))) × ((offer ev c).cap ≡ c.cap)
  unfolding offer
  offer-keep_last ev c w = elim (Bool-cases (ltb (length c.queue) c.cap)) [
    | inl e ↦ rw e (
      sym (
          keep_last_short c.cap (c.queue ++ (ev ∷ []))
            (omega (arith, length-append c.queue (ev ∷ []), ltb→lt _ _ e))),
      refl,
    )
    | inr e ↦
        let fits : ltb (length (drop 1 c.queue)) c.cap ≡ true =
          lt→ltb _ _ (omega (arith, w.0, w.1, length-drop 1 c.queue)) in
        let full : length c.queue ≡ c.cap = ground (arith, w.1) in
        rw (e, fits) (sym (keep_last_one c.cap c.queue ev full w.0), refl)
  ]

  unfoldable pub find_sub : ℕ → List (ℕ × Channel A) → Option (Channel A)
  find_sub id [] = none
  find_sub id ((j, c) ∷ m) = if j == id then some c else find_sub id m

  find_sub-publish_all :
      (id : ℕ) (ev : Event A) (m : List (ℕ × Channel A)) (c : Channel A)
      → find_sub id m ≡ some c
      → find_sub id (publish_all ev m) ≡ some (offer ev c)
  unfolding find_sub publish_all
  find_sub-publish_all id ev [] c h = cc
  find_sub-publish_all id ev ((j, d) ∷ m) c h = elim (Bool-cases (j == id)) [
    | inl e ↦ rw e (ap (λ x. some (offer ev x)) (some_inj (rw e at h)))
    | inr e ↦ rw e (find_sub-publish_all id ev m c (rw e at h))
  ]

  -- Publications in a row, each with the time that the clock shows.
  pub publish_each : List (ℕ × Event A) → Bus A → Bus A
  publish_each [] b = b
  publish_each ((now, ev) ∷ evs) b = publish_each evs (publish now ev b)

  pub stamp_each : List (ℕ × Event A) → List (Event A)
  stamp_each [] = []
  stamp_each ((now, ev) ∷ evs) = stamp now ev ∷ stamp_each evs

  -- A subscriber that does not read while events are published by calls that do not overlap finds the
  -- newest of what it had and what was published, in order and as many as its channel holds; each
  -- event has a time.
  pub find_sub-publish_each :
      (evs : List (ℕ × Event A)) (b : Bus A) (id : ℕ) (c : Channel A)
      → find_sub id b.subs ≡ some c
      → IsWellFormed c
      → (c' : Channel A) × (find_sub id (publish_each evs b).subs ≡ some c')
        × (c'.cap ≡ c.cap)
        × (c'.queue ≡ keep_last c.cap (c.queue ++ stamp_each evs))
        × IsWellFormed c'
  unfolding publish_each stamp_each
  find_sub-publish_each [] b id c h w =
      (c, h, refl, rw append-nil (sym (keep_last_short c.cap c.queue w.1)), w)
  find_sub-publish_each ((now, ev) ∷ evs) b id c h w =
      let e = stamp now ev in
      let (queue_is, cap_is) = offer-keep_last e c w in
      let w' : IsWellFormed (offer e c) =
        (omega (arith, cap_is, w.0), rw (queue_is, cap_is) (length-keep_last c.cap _)) in
      let found : find_sub id (publish now ev b).subs ≡ some (offer e c) =
        unfold publish in find_sub-publish_all id e b.subs c h in
      let r = find_sub-publish_each evs (publish now ev b) id (offer e c) found w' in
      let tail = stamp_each evs in
      let newest : (r.0).queue ≡ keep_last c.cap (c.queue ++ (e ∷ tail)) =
        r.3
        ∙ rw (cap_is, queue_is) (keep_last-append c.cap (c.queue ++ (e ∷ [])) tail)
        ∙ ap (keep_last c.cap) (append_assoc c.queue (e ∷ []) tail) in
      (r.0, r.1, r.2 ∙ cap_is, newest, r.4)
