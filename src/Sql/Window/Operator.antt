-- ===== src/Sql/Window/Operator.antt =====
-- `WindowType` (dozer-sql/src/window/operator.rs). Instants are nanoseconds since the first instant that
-- the crate `chrono` can represent, durations nanoseconds; arithmetic outside of the representable
-- instants panics.
use dozer.Common.{
  ℕ, zero, suc, ◌+◌, ◌-◌, Option, none, some, List, [], ◌∷◌, ◌++◌, get_elem?, ltb, if◌then◌else◌,
  Result, ok, err, ◌>>=◌,
}
use mathlib.Core.List.{map}

-- The last instant, and `duration_trunc`.
pub record Clock : Type 0 where
  pub last_instant : ℕ
  pub duration_trunc : ℕ → ℕ → Option ℕ

pub data Field (F : Type 0) : Type 0 where
  timestamp : ℕ → Field F
  other : F → Field F

pub record Record (F L : Type 0) : Type 0 where
  pub values : List (Field F)
  pub lifetime : Option L

pub data WindowType : Type 0 where
  tumble : ℕ → ℕ → WindowType
  hop : ℕ → ℕ → ℕ → WindowType

-- Errors of the source, a panic, and the end of the fuel.
pub data WindowError : Type 0 where
  tumble_rounding_error : WindowError
  tumble_invalid_column_type : WindowError
  panic : WindowError
  out_of_fuel : WindowError

abbrev pub Window : Type 0 → Type 0
Window F = Field F × Field F

module _ (clock : Clock) where
  open clock use {last_instant, duration_trunc}

  abbrev add : ℕ → ℕ → Result WindowError ℕ
  add t d = if ltb last_instant (t + d) then err WindowError.panic else ok (t + d)

  abbrev subtract : ℕ → ℕ → Result WindowError ℕ
  subtract t d = if ltb t d then err WindowError.panic else ok (t - d)

  abbrev rounded : Option ℕ → Result WindowError ℕ
  rounded none = err WindowError.tumble_rounding_error
  rounded (some t) = ok t

  abbrev trunc : ℕ → ℕ → Result WindowError ℕ
  trunc t d = rounded (duration_trunc t d)

module _ {F : Type 0} (clock : Clock) where
  unfoldable pub tumble_window : Field F → ℕ → Result WindowError (Window F)
  tumble_window (other f) interval = err WindowError.tumble_invalid_column_type
  tumble_window (timestamp t) interval = do
    start ← trunc clock t interval
    end ← add clock start interval
    ok (timestamp start, timestamp end)

  unfoldable pub hop_loop : ℕ → ℕ → ℕ → ℕ → ℕ → Result WindowError (List (Window F))
  hop_loop zero current limit hop_size interval = err WindowError.out_of_fuel
  hop_loop (suc fuel) current limit hop_size interval =
      let rest =
        (add clock current hop_size >>= λ next. hop_loop fuel next limit hop_size interval) in
      if ltb current limit
      then (add clock current interval >>= λ end.
          rest >>= λ windows. ok ((timestamp current, timestamp end) ∷ windows))
      else ok []

  -- The fuel is enough for hops of one nanosecond or more.
  unfoldable pub hop_windows : Field F → ℕ → ℕ → Result WindowError (List (Window F))
  hop_windows (other f) hop_size interval = err WindowError.tumble_invalid_column_type
  hop_windows (timestamp t) hop_size interval = do
    truncated ← trunc clock t hop_size
    earlier ← subtract clock truncated interval
    starting_time ← add clock earlier hop_size
    limit ← add clock starting_time interval
    hop_loop (suc interval) starting_time limit hop_size interval

module _ {F L : Type 0} where
  abbrev column : Record F L → ℕ → Result WindowError (Field F)
  column r i = elim (get_elem? r.values i) [ none ↦ err WindowError.panic | some f ↦ ok f ]

  -- `Record::appended`, which drops the lifetime.
  abbrev appended : Record F L → Window F → Record F L
  appended r (start, end) = record { values = r.values ++ (start ∷ end ∷ []); lifetime = none }

module _ {F L : Type 0} (clock : Clock) where
  unfoldable pub execute : WindowType → Record F L → Result WindowError (List (Record F L))
  execute (tumble column_index interval) r = do
    field ← column r column_index
    window ← tumble_window clock field interval
    ok (appended r window ∷ [])
  execute (hop column_index hop_size interval) r = do
    field ← column r column_index
    windows ← hop_windows clock field hop_size interval
    ok (map (appended r) windows)
