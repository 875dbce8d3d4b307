-- ===== src/Outbox/Dispatcher/Marks.antt =====
-- One event of the dispatcher's loop: what `try_publish` leaves behind.
use moventra_tms.Base.{
  ℕ, ◌≡◌, ◌⊎◌, inl, inr, refl, ◌∙◌, true, false, ◌&&◌, ◌==◌, none, some, arith, Bool-cases,
  Option-cases, is_some, Result, ok, err,
}
use moventra_tms.Base.Sql.{Unique, find, touch, opt_map, find-update, find-key, Unique-update}
use moventra_tms.Outbox
use moventra_tms.Outbox.{Event, Events, event_id, holds_claim, published}
use moventra_tms.Outbox.Claims.{mark_published-cases}
use moventra_tms.Outbox.Service.{marked, mark_published}
use moventra_tms.Outbox.Dispatcher.{Thrown, Receipt, Attempt, is_confirmed, mark, try_publish}

abbrev pub IsPublished : ℕ → Events → Type 0
IsPublished id t = (x : Event) × (find event_id id t ≡ some x) × (is_some x.published_at ≡ true)

-- The broker has confirmed the event under the event's own id.
abbrev pub IsConfirmed : (Event → Attempt) → Event → Type 0
IsConfirmed attempts e = (r : Receipt) × ((attempts e).reply ≡ ok r) × (is_confirmed e r ≡ true)

abbrev pub marked_table : ℕ → ℕ → ℕ → Events → Events
marked_table id token now t = (Outbox.mark_published id token now t).0

pub marked_table-Unique :
    (id token now : ℕ) (t : Events)
    → Unique event_id t
    → Unique event_id (marked_table id token now t)
unfolding Outbox.mark_published
marked_table-Unique id token now t u = Unique-update event_id _ (published now) (λ e. refl) t u

find-marked_table :
    (id token now k : ℕ) (t : Events)
    → find event_id k (marked_table id token now t)
      ≡ opt_map (touch (λ e. e.id == id && holds_claim token e) (published now)) (find event_id k t)
unfolding Outbox.mark_published
find-marked_table id token now k t = find-update event_id _ (published now) (λ e. refl) k t

pub IsPublished-marked_table :
    (id token now k : ℕ) (t : Events)
    → IsPublished k t
    → IsPublished k (marked_table id token now t)
IsPublished-marked_table id token now k t (x, found, at) = (
  touch (λ e. e.id == id && holds_claim token e) (published now) x,
  find-marked_table id token now k t ∙ rw found,
  stays,
)
  where
    stays :
        is_some (touch (λ e. e.id == id && holds_claim token e) (published now) x).published_at
        ≡ true
    stays = unfold published in ground arith

pub marked_table-IsPublished :
    (id token now k : ℕ) (t : Events)
    → IsPublished k (marked_table id token now t)
    → (k ≡ id) ⊎ IsPublished k t
marked_table-IsPublished id token now k t (x, found, at) = elim (Option-cases (find event_id k t)) [
  | inl missing ↦ absurd (absent missing)
  | inr (e, stored) ↦ elim (Bool-cases (e.id == id)) [
    | inl same ↦ inl (ground (arith, find-key event_id k t stored))
    | inr other ↦ inr (e, stored, (ground (arith, kept e stored other)))
  ]
]
  where
    absent : find event_id k t ≡ none → ⊥
    absent e = ground (arith, find-marked_table id token now k t)

    kept : (e : Event) → find event_id k t ≡ some e → (e.id == id) ≡ false → x ≡ e
    kept e stored other = ground (arith, find-marked_table id token now k t)

pub try_publish-ok :
    (token : ℕ) (a : Attempt) (e : Event) (t : Events) {t' : Events}
    → Unique event_id t
    → try_publish token a e t ≡ ok t'
    → (r : Receipt) × (a.reply ≡ ok r)
      × (is_confirmed e r ≡ true)
      × (t' ≡ marked_table e.id token a.now t)
      × IsPublished e.id t'
unfolding try_publish
try_publish-ok token a e t {t'} u h = go a.reply refl
  where
    done : mark token a e t ≡ ok t' → (t' ≡ marked_table e.id token a.now t) × IsPublished e.id t'
    done k = elim (mark_published-cases e.id token a.now t u) [
      | inl (x, found, held, gives, stored) ↦ (
        unfold mark mark_published marked in ground arith,
        (
          published a.now x,
          unfold mark mark_published marked in ground arith,
          unfold published in refl,
        ),
      )
      | inr (same, lost) ↦ absurd (unfold mark mark_published marked in ground arith)
    ]

    go :
        (x : Result Thrown Receipt)
        → a.reply ≡ x
        → (r : Receipt) × (a.reply ≡ ok r)
          × (is_confirmed e r ≡ true)
          × (t' ≡ marked_table e.id token a.now t)
          × IsPublished e.id t'
    go (err x) s = absurd (ground arith)
    go (ok r) s =
        let (same, marked_now) = done (ground arith) in (r, s, ground arith, same, marked_now)
