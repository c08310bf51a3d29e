-- ===== src/Trading/NakedFlattener/Cooldown.antt =====
-- The re-sell cooldown of src/trading/naked-flattener.ts over any history of sweeps.
use mathlib.Core.Path.{subst}
use pok_poly_kalshi.Prelude.{
  ℕ, ◌+◌, ◌≤◌, String, Bool, false, ◌≡◌, ap, sym, ◌∙◌, Option, none, some, List, [], ◌∷◌, arith,
  inl, inr, ◌||◌, not,
}
use pok_poly_kalshi.Prelude.Tests.{Bool-cases, Option-cases, text_key, or_default, or_false, ◌==◌}
use pok_poly_kalshi.Prelude.Lists.{All, All-imp}
use pok_poly_kalshi.Prelude.JsMap.{JsMap, get, set, get-set, get-set_self}
use pok_poly_kalshi.Trading.NakedFlattener.Plan.{resolve-calls}
use pok_poly_kalshi.Prelude.Int.{ℤ, pos, ◌+ℤ◌, ◌-ℤ◌, scale, ◌<ℤ◌, leb_ℤ, ltb_ℤ, min_ℤ, max_ℤ}
use pok_poly_kalshi.Trading.NakedFlattener.{
  NakedResidualRow, Flattener, Venue, SellOutcome, answered, thrown, Call, sold, resolved, dust,
  resolve, record_sale, resolve_if_flat, settle, flatten_excess, flatten_one, sweep, attempt, tick,
  Reads, is_cooling, resell_cooldown_ms, create, run, truthy, is_expired,
  max_excess_residual_factor, max_excess_abs_tolerance_shares, kalshi_fresh, kalshi_no_held, read,
  store_failed, snapshot_failed,
}

-- The token has been marked as sold, at this time or later.
abbrev MarkedSince : JsMap String ℕ → String → ℕ → Type 0
MarkedSince marks token at = (last : ℕ) × (get marks token ≡ some last) × (at ≤ last)

-- A call is in the past, and a sale that moved more than dust is marked.
abbrev Recorded : JsMap String ℕ → ℕ → Call → Type 0
Recorded marks clock (sold r shares at (answered n e)) =
    (at ≤ clock) × (dust <ℤ n → MarkedSince marks r.naked_token_id at)
Recorded marks clock (sold r shares at (thrown text)) = Unit
Recorded marks clock (resolved r at) = Unit

-- An earlier call keeps its distance from a sale of the token at the given time.
abbrev pub Apart : String → ℕ → Call → Type 0
Apart token at (sold r shares before (answered n e)) =
    r.naked_token_id ≡ token → dust <ℤ n → before + resell_cooldown_ms ≤ at
Apart token at _ = Unit

-- Every sale is at least the cooldown after every earlier sale of its token that moved shares.
abbrev pub Spaced : List Call → Type 0
Spaced [] = Unit
Spaced (sold r shares at o ∷ calls) = All (Apart r.naked_token_id at) calls × Spaced calls
Spaced (resolved r at ∷ calls) = Spaced calls

abbrev Inv : ℕ → Flattener → Type 0
Inv clock f = Spaced f.calls × All (Recorded f.recently_sold_at clock) f.calls

-- Marking a token now keeps what is recorded.
set-Recorded :
    (marks : JsMap String ℕ) (token : String) (now clock : ℕ) (c : Call)
    → clock ≤ now
    → Recorded marks clock c
    → Recorded (set marks token now) now c
set-Recorded marks token now clock (sold r shares at (answered n e)) l (past, marked) = (
  omega arith,
  λ d.
      let (last, known, later) = marked d in
      elim (Bool-cases (token == r.naked_token_id)) [
        | inl same ↦ (now, rw (get-set marks token now r.naked_token_id, same), omega arith)
        | inr other ↦ (last, rw (get-set marks token now r.naked_token_id, other) known, later)
      ],
)
set-Recorded marks token now clock (sold r shares at (thrown text)) l h = tt
set-Recorded marks token now clock (resolved r at) l h = tt

Recorded-mono :
    (marks : JsMap String ℕ) (now clock : ℕ) (c : Call)
    → clock ≤ now
    → Recorded marks clock c
    → Recorded marks now c
Recorded-mono marks now clock (sold r shares at (answered n e)) l (past, marked) =
    (omega arith, marked)
Recorded-mono marks now clock (sold r shares at (thrown text)) l h = tt
Recorded-mono marks now clock (resolved r at) l h = tt

cooled :
    (mark : Option ℕ) (now last : ℕ)
    → is_cooling mark now ≡ false
    → mark ≡ some last
    → last + resell_cooldown_ms ≤ now
cooled none now last c e = cc
cooled (some at) now last c e = ground arith

rested-Apart :
    (marks : JsMap String ℕ) (token : String) (now clock : ℕ) (c : Call)
    → is_cooling (get marks token) now ≡ false
    → Recorded marks clock c
    → Apart token now c
rested-Apart marks token now clock (sold r shares at (answered n e)) cool (past, marked) = λ same d.
    let (last, known, later) = marked d in
    omega (arith, cooled (get marks token) now last cool (ap (get marks) (sym same) ∙ known))
rested-Apart marks token now clock (sold r shares at (thrown text)) cool h = tt
rested-Apart marks token now clock (resolved r at) cool h = tt

Inv-mono : (now clock : ℕ) (f : Flattener) → clock ≤ now → Inv clock f → Inv now f
Inv-mono now clock f l i =
    (i.0, All-imp f.calls (λ c. Recorded-mono f.recently_sold_at now clock c l) i.1)

cooling-off : (a b c d : Bool) → (a || b || c || d) ≡ false → b ≡ false
cooling-off a b c d e = (or_false a b (or_false _ c (or_false _ d e).0).0).1

resolve-marks :
    (v : Venue) (f : Flattener) (r : NakedResidualRow) (now : ℕ)
    → (resolve v f r now).recently_sold_at ≡ f.recently_sold_at
unfolding resolve
resolve-marks v f r now = ground arith

resolve-Inv :
    (v : Venue) (f : Flattener) (r : NakedResidualRow) (now : ℕ)
    → Inv now f
    → Inv now (resolve v f r now)
resolve-Inv v f r now i = (
  rw (resolve-calls v f r now) i.0,
  rw (resolve-calls v f r now) (
      subst (λ marks. All (Recorded marks now) (resolved r now ∷ f.calls))
        (sym (resolve-marks v f r now)) (tt, i.1)),
)

resolve_if_flat-Inv :
    (v : Venue) (f : Flattener) (r : NakedResidualRow) (now : ℕ) (remaining floor : ℤ)
    → Inv now f
    → Inv now (resolve_if_flat v f r now remaining floor)
unfolding resolve_if_flat
resolve_if_flat-Inv v f r now remaining floor i =
    elim (Bool-cases (leb_ℤ (remaining -ℤ floor) dust)) [
      | inl e ↦ rw e (resolve-Inv v f r now i)
      | inr e ↦ rw e i
    ]

-- The seller was called for a token that is not cooling down.
settle-Inv :
    (v : Venue) (f : Flattener) (r : NakedResidualRow) (now clock : ℕ) (held floor shares : ℤ)
    (o : SellOutcome)
    → clock ≤ now
    → is_cooling (get f.recently_sold_at r.naked_token_id) now ≡ false
    → Inv clock f
    → Inv now (settle v (record f { calls = sold r shares now o ∷ f.calls }) r now held floor o)
unfolding settle record_sale
settle-Inv v f r now clock held floor shares o l cool i = go o
  where
    marks : JsMap String ℕ
    marks = f.recently_sold_at

    token : String
    token = r.naked_token_id

    apart : All (Apart token now) f.calls
    apart = All-imp f.calls (λ c. rested-Apart marks token now clock c cool) i.1

    go :
        (o : SellOutcome)
        → Inv now (settle v (record f { calls = sold r shares now o ∷ f.calls }) r now held floor o)
    go (thrown text) =
        ((apart, i.0), (tt, All-imp f.calls (λ c. Recorded-mono marks now clock c l) i.1))
    go (answered n e) = elim (Bool-cases (leb_ℤ n dust)) [
      | inl d ↦ rw d (
          (
            (apart, i.0),
            (
              (omega arith, λ h. absurd (ground arith)),
              All-imp f.calls (λ c. Recorded-mono marks now clock c l) i.1,
            ),
          ))
      | inr d ↦ rw d (
          resolve_if_flat-Inv v _ r now (max_ℤ (pos 0) (held -ℤ n)) floor (
            (
              (apart, i.0),
              (
                (omega arith, λ h. (now, get-set_self marks token now, omega arith)),
                All-imp f.calls (λ c. set-Recorded marks token now clock c l) i.1,
              ),
            )))
    ]

flatten_excess-Inv :
    (v : Venue) (f : Flattener) (r : NakedResidualRow) (now clock : ℕ) (held floor : ℤ)
    → clock ≤ now
    → is_cooling (get f.recently_sold_at r.naked_token_id) now ≡ false
    → Inv clock f
    → Inv now (flatten_excess v f r now held floor)
unfolding flatten_excess
flatten_excess-Inv v f r now clock held floor l cool i =
    let excess = max_ℤ (pos 0) (held -ℤ floor) in
    let shares = min_ℤ r.naked_residual_shares excess in
    let limit =
      scale max_excess_residual_factor r.naked_residual_shares +ℤ max_excess_abs_tolerance_shares in
    elim (Bool-cases (leb_ℤ excess dust)) [
      | inl e ↦ rw e (resolve-Inv v f r now (Inv-mono now clock f l i))
      | inr e ↦ elim (Bool-cases (ltb_ℤ limit excess)) [
        | inl g ↦ rw (e, g) ((Inv-mono now clock f l i))
        | inr g ↦ elim (Bool-cases (leb_ℤ shares dust)) [
          | inl d ↦ rw (e, g, d) (Inv-mono now clock f l i)
          | inr d ↦
              rw (e, g, d)
                (settle-Inv v f r now clock held floor shares (v.sell now r shares) l cool i)
        ]
      ]
    ]

flatten_one-Inv :
    (v : Venue) (f : Flattener) (r : NakedResidualRow) (no_held : JsMap String ℤ) (fresh : Bool)
    (now clock : ℕ)
    → clock ≤ now
    → Inv clock f
    → Inv now (flatten_one v f r no_held fresh now)
unfolding flatten_one
flatten_one-Inv v f r no_held fresh now clock l i =
    let held = or_default (get f.held_by_token r.naked_token_id) (pos 0) in
    let blocked =
      is_expired r.expiry_ms now
      || is_cooling (get f.recently_sold_at r.naked_token_id) now
      || leb_ℤ held dust
      || not fresh in
    elim (Bool-cases blocked) [
      | inl e ↦ rw e (Inv-mono now clock f l i)
      | inr e ↦
          let cool = cooling-off _ _ _ _ e in
          elim (Option-cases (truthy r.kalshi_contract_id)) [
            | inl t ↦ rw (e, t) (Inv-mono now clock f l i)
            | inr (ticker, t) ↦ rw (e, t) (flatten_excess-Inv v f r now clock held _ l cool i)
          ]
    ]

sweep-Inv :
    (v : Venue) (f : Flattener) (rs : List NakedResidualRow) (no_held : JsMap String ℤ)
    (fresh : Bool) (now clock : ℕ)
    → clock ≤ now
    → Inv clock f
    → Inv now (sweep v f rs no_held fresh now)
unfolding sweep
sweep-Inv v f [] no_held fresh now clock l i = Inv-mono now clock f l i
sweep-Inv v f (r ∷ rs) no_held fresh now clock l i =
    sweep-Inv v (flatten_one v f r no_held fresh now) rs no_held fresh now now (omega arith)
      (flatten_one-Inv v f r no_held fresh now clock l i)

attempt-Inv :
    (v : Venue) (f : Flattener) (reads : Reads) (now clock : ℕ)
    → clock ≤ now
    → Inv clock f
    → Inv now (attempt v f reads now)
unfolding attempt
attempt-Inv v f (store_failed text) now clock l i = (Inv-mono now clock f l i)
attempt-Inv v f (snapshot_failed [] text) now clock l i = (Inv-mono now clock f l i)
attempt-Inv v f (snapshot_failed (r ∷ rs) text) now clock l i = (Inv-mono now clock f l i)
attempt-Inv v f (read [] s) now clock l i = (Inv-mono now clock f l i)
attempt-Inv v f (read (r ∷ rs) s) now clock l i =
    sweep-Inv v _ (r ∷ rs) (kalshi_no_held s) (kalshi_fresh s) now clock l i

tick-Inv :
    (v : Venue) (f : Flattener) (reads : Reads) (now clock : ℕ)
    → clock ≤ now
    → Inv clock f
    → Inv now (tick v f reads now)
unfolding tick
tick-Inv v f reads now clock l i = elim (Bool-cases (not f.enabled || f.running)) [
  | inl e ↦ rw e (Inv-mono now clock f l i)
  | inr e ↦ rw e ((attempt-Inv v _ reads now clock l i))
]

-- The clock does not run backwards.
abbrev pub Rising : ℕ → List (ℕ × Reads) → Type 0
Rising clock [] = Unit
Rising clock ((now, reads) ∷ ticks) = (clock ≤ now) × Rising now ticks

run-Inv :
    (v : Venue) (f : Flattener) (ticks : List (ℕ × Reads)) (clock : ℕ)
    → Rising clock ticks
    → Inv clock f
    → Spaced (run v f ticks).calls
unfolding run
run-Inv v f [] clock rising i = i.0
run-Inv v f ((now, reads) ∷ ticks) clock (l, rising) i =
    run-Inv v (tick v f reads now) ticks now rising (tick-Inv v f reads now clock l i)

-- From a new flattener, over any sweeps whose clock does not run backwards and whatever the venues
-- answer: every sale is at least 60 seconds after each earlier sale of its token that moved more than
-- dust, also within one sweep.
pub run-Spaced :
    (v : Venue) (enabled : Bool) (ticks : List (ℕ × Reads))
    → Rising 0 ticks
    → Spaced (run v (create enabled) ticks).calls
unfolding create
run-Spaced v enabled ticks rising = run-Inv v (create enabled) ticks 0 rising (tt, tt)
