-- ===== src/Merge/Window.antt =====
-- The windows of time of financial_dashboard/services/txn_merge.py. A point in time is the number of
-- microseconds since the day of ordinal 0; dates begin at ordinal 1, so no window starts below 0.
use Prim.Native.Nat.{◌/◌}
use bank_email_fetcher.Prelude.{
  ℕ, ◌+◌, ◌-◌, ◌*◌, Bool, true, false, ◌&&◌, Option, none, some, leb, eqb, if◌then◌else◌,
}
use bank_email_fetcher.Merge.Row.{Transaction, TxnData}

abbrev pub minute : ℕ
minute = 60000000

abbrev pub hour : ℕ
hour = 3600000000

abbrev pub day : ℕ
day = 86400000000

-- `datetime.combine(date, time)`, `.date()` of a point and `.hour` of a time
abbrev pub combine : ℕ → ℕ → ℕ
combine d t = d * day + t

abbrev pub date_of : ℕ → ℕ
date_of point = point / day

abbrev pub hour_of : ℕ → ℕ
hour_of t = t / hour

-- `_FUZZY_MATCH_WINDOW_MINUTES` and `_RECEIVED_TIME_WINDOW_MINUTES`
abbrev pub fuzzy_match_window_minutes : ℕ
fuzzy_match_window_minutes = 10

abbrev pub received_time_window_minutes : ℕ
received_time_window_minutes = 1

-- lo <= x <= hi
abbrev pub between : ℕ → ℕ → ℕ → Bool
between lo x hi = leb lo x && leb x hi

-- centre - w <= x <= centre + w
abbrev pub within : ℕ → ℕ → ℕ → Bool
within w centre x = between (centre - w) x (centre + w)

-- `window_minutes`, as a length of time
abbrev pub window_of : Bool → ℕ
window_of received =
    (if received then received_time_window_minutes else fuzzy_match_window_minutes) * minute

-- transaction_date between two dates, which is not true of NULL
abbrev pub date_between : ℕ → Option ℕ → ℕ → Bool
date_between lo none hi = false
date_between lo (some d) hi = between lo d hi

-- the clause on `transaction_date` of the query of `_gather_fuzzy_candidates`
abbrev pub in_dates : Bool → ℕ → Option ℕ → Option ℕ → Bool
in_dates received txn_date none stored = date_between txn_date stored txn_date
in_dates received txn_date (some t) stored =
    let anchor = combine txn_date t in
    let w = window_of received in date_between (date_of (anchor - w)) stored (date_of (anchor + w))

-- `in_window`, of a candidate with this date, time and flag
abbrev pub in_window_at : ℕ → ℕ → ℕ → Option ℕ → Bool → Bool
in_window_at w anchor c_date none received = true
in_window_at w anchor c_date (some t) received =
    let c_dt = combine c_date t in
    (if received then within (window_of true) c_dt anchor else true) && within w anchor c_dt

abbrev pub with_date : Option ℕ → (ℕ → Bool) → Bool
with_date none p = false
with_date (some d) p = p d

unfoldable pub in_window : ℕ → ℕ → Transaction → Bool
in_window w anchor c =
    with_date c.transaction_date
      λ c_date. in_window_at w anchor c_date c.transaction_time c.transaction_time_is_received_time

-- abs(a - b)
abbrev pub distance : ℕ → ℕ → ℕ
distance a b = if leb a b then b - a else a - b

abbrev pub plausible_at : Option ℕ → ℕ → Option ℕ → ℕ → Bool
plausible_at none incoming_date stored_time stored_date = eqb stored_date incoming_date
plausible_at (some t) incoming_date none stored_date =
    in_dates false incoming_date (some t) (some stored_date)
plausible_at (some t) incoming_date (some s) stored_date =
    leb (distance (combine stored_date s) (combine incoming_date t)) (window_of false)

-- `_plausible_event_time`
unfoldable pub plausible_event_time : Transaction → TxnData → Bool
plausible_event_time target d = with_date d.transaction_date λ incoming_date.
    with_date target.transaction_date λ stored_date.
      plausible_at d.transaction_time incoming_date target.transaction_time stored_date

-- hour >= 12: a stored hour of 1 to 11, twelve hours earlier; hour < 12: a stored hour of 12,
-- twelve hours later. `matches_minus` and `matches_plus`.
abbrev pub alias_shape : ℕ → ℕ → Bool
alias_shape incoming_time stored_time =
    if leb 12 (hour_of incoming_time)
    then between 1 (hour_of stored_time) 11
    else eqb (hour_of stored_time) 12

-- the centre of the window of the alias
abbrev pub alias_centre : ℕ → ℕ → ℕ
alias_centre txn_date incoming_time =
    let anchor = combine txn_date incoming_time in
    if leb 12 (hour_of incoming_time) then anchor - 12 * hour else anchor + 12 * hour

abbrev pub alias_at : ℕ → ℕ → ℕ → Option ℕ → Bool
alias_at txn_date incoming_time c_date none = false
alias_at txn_date incoming_time c_date (some t) =
    let centre = alias_centre txn_date incoming_time in
    let w = window_of false in
    date_between (date_of (centre - w)) (some c_date) (date_of (centre + w))
    && alias_shape incoming_time t
    && within w centre (combine c_date t)

unfoldable pub in_alias_window : ℕ → ℕ → Transaction → Bool
in_alias_window txn_date incoming_time c =
    with_date c.transaction_date λ c_date. alias_at txn_date incoming_time c_date c.transaction_time
