-- ===== src/Browser/Manager/Sessions.antt =====
-- What each operation of the manager does to its table of sessions.
use agent_operator.Errors.{Error, browser_error}
use agent_operator.Prelude.{
  ℕ, ◌≡◌, refl, ap, ◌⊎◌, inl, inr, arith, Bool, true, false, not, none, [], ◌∷◌, ◌==◌, Table,
  lookup, insert, new_key, Result, ok, err, Action, pure, raise_if, if◌then◌else◌,
}
use agent_operator.Prelude.Triple.{
  Triple, Ends, Triple-pure, Triple-gets, Triple-seq, Triple-modify, Triple-if, Triple-weaken,
}
use agent_operator.Browser.{Driver}
use agent_operator.Browser.Session.{BrowserSession}
use agent_operator.Browser.Manager.{
  BrowserSettings, Managed, delete, manage, stop_manager, open_session, close_session,
}

pub lookup-delete :
    (j k : ℕ) (t : Table BrowserSession)
    → lookup j (delete k t) ≡ (if j == k then none else lookup j t)
unfolding lookup delete
lookup-delete j k [] = ground arith
lookup-delete j k ((i, session) ∷ t) = ground (arith, lookup-delete j k t)

module _ {W : Type 0} (driver : Driver W) where
  -- The sessions are those of `table`.
  abbrev pub Has : Table BrowserSession → Managed W → Type 0
  Has table state = state.sessions ≡ table

  abbrev opened : ℕ → ℕ → ℕ → BrowserSession
  opened id context page = record {
    session_id = id;
    context = context;
    page = page;
    crash_count = 0;
  }

  module _ (table : Table BrowserSession) where
    manage-Has :
        {A : Type 0} (m : Action W A)
        → Triple (Has table) (manage driver m) (λ _. Has table) (λ _. Has table)
    unfolding manage
    manage-Has m = record { at = λ s h. go m (m s.world).0 (m s.world).1 s h }
      where
        go :
            {A : Type 0} (m : Action W A) (r : Result A) (w : W) (s : Managed W)
            → Has table s
            → Ends (λ _. Has table) (λ _. Has table) r (record s { world = w })
        go m (ok a) w s h = h
        go m (err e) w s h = h

    raise_if-Has :
        (b : Bool) (e : Error) → Triple (Has table) (raise_if b e) (λ _. Has table) (λ _. Has table)
    unfolding raise_if
    raise_if-Has true e = record { at = λ s h. h }
    raise_if-Has false e = record { at = λ s h. h }

    -- A session under the id that is returned, if one is, and no change if none is.
    pub open_session-Has :
        (settings : BrowserSettings)
        → Triple
            (Has table)
            (open_session driver settings)
            (λ id state.
              (id ≡ new_key table)
              × ((session : BrowserSession) × (state.sessions ≡ insert id session table)))
            (λ _. Has table)
    unfolding open_session
    open_session-Has settings =
        Triple-seq {R = λ _. Has table} (Triple-gets _ (λ s h. h)) λ started.
          Triple-seq (raise_if-Has (not started) browser_error) λ _.
            Triple-seq (manage-Has _) λ context. Triple-seq (manage-Has _) λ _.
              Triple-seq (manage-Has _) λ page.
                Triple-seq {R = λ id state. (id ≡ new_key table) × Has table state}
                  (Triple-gets _ (λ s h. (ap new_key h, h)))
                  λ id.
                    Triple-seq
                      {R = λ _ state.
                        (id ≡ new_key table)
                        × (state.sessions ≡ insert id (opened id context page) table)}
                      (Triple-modify _ (λ s h. (h.0, ap (insert id (opened id context page)) h.1)))
                      λ _. Triple-pure id (λ s h. (h.0, (opened id context page, h.1)))

  module _ (table : Table BrowserSession) where
    -- How the manager stops: no session is left, or an error came before any was removed.
    abbrev pub Stopped : Error → Managed W → Type 0
    Stopped _ state = (state.sessions ≡ []) ⊎ (state.sessions ≡ table)

    manage_if-Stopped :
        (b : Bool) (m : Action W (Unit {0}))
        → Triple (Has []) (if b then manage driver m else pure tt) (λ _. Has []) Stopped
    manage_if-Stopped b m =
        Triple-if b _ _
          (λ _. Triple-weaken _ (manage-Has [] m) (λ s h. h) (λ _ s h. h) (λ _ s h. inl h))
          (λ _. Triple-pure tt (λ s h. h))

    pub stop_manager-Has : Triple (Has table) (stop_manager driver) (λ _. Has []) Stopped
    unfolding stop_manager
    stop_manager-Has = Triple-seq {R = λ _. Has table} (Triple-gets _ (λ s h. h)) λ state.
        Triple-seq (Triple-weaken _ (manage-Has table _) (λ s h. h) (λ _ s h. h) (λ _ s h. inr h))
          λ _. Triple-seq {R = λ _. Has []} (Triple-modify _ (λ s h. refl)) λ _.
            Triple-seq (manage_if-Stopped state.has_browser _)
              λ _. manage_if-Stopped state.has_playwright _

    -- The session is gone, however the call ends.
    pub close_session-Has :
        (id : ℕ)
        → Triple
            (Has table)
            (close_session driver id)
            (λ _. Has (delete id table))
            (λ _. Has (delete id table))
    unfolding close_session
    close_session-Has id = Triple-seq {R = λ _. Has table} (Triple-gets _ (λ s h. h)) λ found.
        Triple-seq {R = λ _. Has (delete id table)} (Triple-modify _ (λ s h. ap (delete id) h))
          λ _. manage-Has (delete id table) _
