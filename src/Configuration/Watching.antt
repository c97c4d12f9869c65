-- ===== src/Configuration/Watching.antt =====
-- Reloads and their debouncing (`Start` and `reloadConfig` of internal/config/watcher.go).
use kortex.Common.{
  ℕ, ◌+◌, ◌<◌, ◌≤◌, ◌≡◌, refl, ap, ◌∙◌, ◌⊎◌, inl, inr, String, ◌==◌, string_eq, ==_refl, Bool, true,
  false, ◌&&◌, ◌||◌, Option, none, some, List, [], ◌∷◌, ◌++◌, leb, le→leb, if◌then◌else◌, Result,
  ok, err, Bool-cases, arith,
}
use kortex.Configuration.{
  Rates, KortexConfig, Watcher, Disk, load_config, notify, reloaded, reload_config, WatchInput,
  changed, elapsed, fire, watch_step, watch_run,
}

module _ (f : Rates) (unmarshal : String → Result String (KortexConfig f)) where
  -- Only moments before the reload that is due, and changes, each of which puts it off.
  unfoldable pub IsBusy : Watcher f → (due : ℕ) → List (WatchInput f) → Type 0
  IsBusy w due [] = Unit
  IsBusy w due (changed at name is_write ∷ is) =
      IsBusy w (if name == w.file_name && is_write then at + w.debounce else due) is
  IsBusy w due (elapsed at disk ∷ is) = (at < due) × IsBusy w due is

  -- When the reload is due behind some inputs.
  unfoldable pub due_behind : Watcher f → (due : ℕ) → List (WatchInput f) → ℕ
  due_behind w due [] = due
  due_behind w due (changed at name is_write ∷ is) =
      due_behind w (if name == w.file_name && is_write then at + w.debounce else due) is
  due_behind w due (elapsed at disk ∷ is) = due_behind w due is

  fire-early :
      (at due : ℕ) (disk : Disk f) (w : Watcher f)
      → at < due
      → fire f unmarshal at disk w (some due) ≡ w
  unfolding fire
  fire-early at due disk w early = ground arith

  pull_timer :
      (b : Bool) (x y : ℕ) (w : Watcher f)
      → (if b then record w { timer = some x } else record w { timer = some y })
        ≡ record w { timer = some (if b then x else y) }
  pull_timer true x y w = refl
  pull_timer false x y w = refl

  watch_run-busy :
      (is : List (WatchInput f)) (w : Watcher f) (due : ℕ)
      → IsBusy w due is
      → watch_run f unmarshal is (record w { timer = some due })
        ≡ record w { timer = some (due_behind w due is) }
  unfolding watch_run watch_step IsBusy due_behind
  watch_run-busy [] w due busy = refl
  watch_run-busy (changed at name is_write ∷ is) w due busy =
      let ours = name == w.file_name && is_write in
      ap (watch_run f unmarshal is) (pull_timer ours (at + w.debounce) due w)
      ∙ watch_run-busy is w (if ours then at + w.debounce else due) busy
  watch_run-busy (elapsed at disk ∷ is) w due busy =
      ap (watch_run f unmarshal is) (fire-early at due disk (record w { timer = some due }) busy.0)
      ∙ watch_run-busy is w due busy.1

  own_write : (w : Watcher f) → (w.file_name == w.file_name && true) ≡ true
  own_write w = ap (λ b. b && true) (==_refl w.file_name)

  nested :
      {A : Type 0} (a b : Bool) (x : A) (before : Option A)
      → (if b then some x else if a then some x else before) ≡ (if a || b then some x else before)
  nested true true x before = refl
  nested true false x before = refl
  nested false true x before = refl
  nested false false x before = refl

  watch_run-append :
      (is js : List (WatchInput f)) (w : Watcher f)
      → watch_run f unmarshal (is ++ js) w ≡ watch_run f unmarshal js (watch_run f unmarshal is w)
  unfolding watch_run
  watch_run-append [] js w = refl
  watch_run-append (i ∷ is) js w = watch_run-append is js (watch_step f unmarshal i w)

  fire-due :
      (at due : ℕ) (disk : Disk f) (w : Watcher f)
      → due ≤ at
      → fire f unmarshal at disk w (some due)
        ≡ reload_config f unmarshal disk (record w { timer = none })
  unfolding fire
  fire-due at due disk w late = rw (le→leb due at late) refl

  -- A write of the configuration file, more changes that each come before the reload that is due
  -- then, and a moment at which the last of these reloads is due, lead to one reload, of the file as
  -- it is then: the configuration and the calls are those of that reload alone.
  pub watch_run-debounced :
      (w : Watcher f) (first : ℕ) (is : List (WatchInput f)) (at : ℕ) (disk : Disk f)
      → IsBusy w (first + w.debounce) is
      → due_behind w (first + w.debounce) is ≤ at
      → watch_run f unmarshal (changed first w.file_name true ∷ (is ++ elapsed at disk ∷ [])) w
        ≡ reload_config f unmarshal disk (record w { timer = none })
  unfolding watch_run watch_step
  watch_run-debounced w first is at disk busy late =
      let due = first + w.debounce in
      let waiting : Watcher f = record w { timer = some due } in
      ap (λ b. watch_run f unmarshal (is ++ elapsed at disk ∷ []) (if b then waiting else w))
        (own_write w)
      ∙ watch_run-append is (elapsed at disk ∷ []) waiting
      ∙ ap (watch_run f unmarshal (elapsed at disk ∷ [])) (watch_run-busy is w due busy)
      ∙ fire-due at (due_behind w due is) disk (record w { timer = some (due_behind w due is) })
          late

  -- The configuration with which a handler was called last, or what there was before.
  unfoldable pub last_call :
      String → List (String × KortexConfig f) → Option (KortexConfig f) → Option (KortexConfig f)
  last_call h [] before = before
  last_call h ((k, c) ∷ calls) before = last_call h calls (if k == h then some c else before)

  unfoldable pub has : String → List String → Bool
  has h [] = false
  has h (k ∷ ks) = k == h || has h ks

  -- A handler that was called is registered, and its last call had the configuration of now.
  abbrev pub IsUpToDate : Watcher f → Type 0
  IsUpToDate w =
      (h : String)
      → (last_call h w.calls none ≡ none)
        ⊎ ((has h w.handlers ≡ true) × (last_call h w.calls none ≡ some w.config))

  last_call-append :
      (h : String) (xs ys : List (String × KortexConfig f)) (before : Option (KortexConfig f))
      → last_call h (xs ++ ys) before ≡ last_call h ys (last_call h xs before)
  unfolding last_call
  last_call-append h [] ys before = refl
  last_call-append h ((k, c) ∷ xs) ys before = last_call-append h xs ys _

  last_call-notify :
      (h : String) (hs : List String) (c : KortexConfig f) (before : Option (KortexConfig f))
      → last_call h (notify f hs c) before ≡ (if has h hs then some c else before)
  unfolding last_call notify has
  last_call-notify h [] c before = refl
  last_call-notify h (k ∷ hs) c before =
      last_call-notify h hs c (if k == h then some c else before)
      ∙ nested (k == h) (has h hs) c before

  reloaded-IsUpToDate :
      (w : Watcher f) (loaded : Result String (KortexConfig f))
      → IsUpToDate w
      → IsUpToDate (reloaded f w loaded)
  unfolding reloaded
  reloaded-IsUpToDate w (err e) fine = fine
  reloaded-IsUpToDate w (ok c) fine = λ h.
      let calls =
        last_call-append h w.calls (notify f w.handlers c) none
        ∙ last_call-notify h w.handlers c (last_call h w.calls none) in
      elim (Bool-cases (has h w.handlers)) [
        | inl known ↦
            inr (known, calls ∙ ap (λ b. if b then some c else last_call h w.calls none) known)
        | inr unknown ↦ elim (fine h) [
          | inl never ↦
              inl (calls ∙ ap (λ b. if b then some c else last_call h w.calls none) unknown ∙ never)
          | inr called ↦ let contradiction = called.0 in ground arith
        ]
      ]

  fire-IsUpToDate :
      (at : ℕ) (disk : Disk f) (w : Watcher f) (timer : Option ℕ)
      → IsUpToDate w
      → IsUpToDate (fire f unmarshal at disk w timer)
  unfolding fire reload_config
  fire-IsUpToDate at disk w none fine = fine
  fire-IsUpToDate at disk w (some due) fine = elim (Bool-cases (leb due at)) [
    | inl late ↦
        rw late
          (reloaded-IsUpToDate (record w { timer = none }) (load_config f unmarshal disk) fine)
    | inr early ↦ rw early fine
  ]

  watch_step-IsUpToDate :
      (i : WatchInput f) (w : Watcher f) → IsUpToDate w → IsUpToDate (watch_step f unmarshal i w)
  unfolding watch_step
  watch_step-IsUpToDate (elapsed at disk) w fine = fire-IsUpToDate at disk w w.timer fine
  watch_step-IsUpToDate (changed at name is_write) w fine =
      elim (Bool-cases (name == w.file_name && is_write)) [
        | inl ours ↦ rw ours fine
        | inr foreign ↦ rw foreign fine
      ]

  -- Through whatever happens to a running watcher, reloads that fail included, a handler that has
  -- been called was called last with the configuration that the watcher holds.
  pub watch_run-IsUpToDate :
      (is : List (WatchInput f)) (w : Watcher f)
      → IsUpToDate w
      → IsUpToDate (watch_run f unmarshal is w)
  unfolding watch_run
  watch_run-IsUpToDate [] w fine = fine
  watch_run-IsUpToDate (i ∷ is) w fine =
      watch_run-IsUpToDate is (watch_step f unmarshal i w) (watch_step-IsUpToDate i w fine)
