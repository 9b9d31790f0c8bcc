-- ===== src/Epoch/Coherence.antt =====
-- All sources agree on how an epoch is closed (dozer-core/src/epoch/manager.rs).
use dozer.Common.{
  ℕ, suc, ◌+◌, ◌-◌, ◌%◌, ◌^◌, ◌<◌, ◌≤◌, ◌≡◌, refl, Bool, true, false, ◌&&◌, ◌||◌, Option, none,
  some, List, [], ◌∷◌, ◌++◌, length, length-append, arith, ok, ◌⊎◌, if◌then◌else◌,
}
use dozer.Types.SourceStates
use dozer.Epoch.Manager.{
  should_commit, Closing, Closed, EpochManagerStateKind, closing, closed, EpochManagerOptions,
  EpochManagerState, EpochCommonInfo, ClosedEpoch, Request, new_closing, join, enter, decide,
  result, common_info, confirm, leave, epoch_id,
}
use dozer.Epoch.System.{System, first_told, all_terminate, any_commit, collect}

pub record ClosingOk (c : Closing) (s : System) : Type 0 where
  pub terminate : c.should_terminate ≡ all_terminate true s.requests
  pub commits : c.should_commit ≡ any_commit false s.requests
  pub states : c.source_states ≡ collect [] s.requests
  pub inside : s.inside ≡ length s.requests
  pub undecided : s.decision ≡ none

pub record ClosedOk (n : ℕ) (options : EpochManagerOptions) (c : Closed) (s : System) : Type 0 where
  pub terminate : c.terminating ≡ all_terminate true s.requests
  pub commits : should_commit c.action ≡ any_commit false s.requests
  pub states : c.source_states ≡ collect [] s.requests
  pub full : length s.requests ≡ n
  pub inside : s.inside + c.num_source_confirmations ≡ n
  pub started : 0 < c.num_source_confirmations
  pub unfinished : 0 < s.inside
  pub decided : s.decision ≡ some (result options c)

abbrev pub KindOk : ℕ → EpochManagerOptions → EpochManagerStateKind → System → Type 0
KindOk n options (closing c) s = ClosingOk c s
KindOk n options (closed c) s = ClosedOk n options c s

pub record IsCoherent (n : ℕ) (options : EpochManagerOptions) (s : System) : Type 0 where
  pub kind : KindOk n options s.manager.kind s
  pub no_index : s.manager.next_record_index_to_persist ≡ 0
  pub room : length s.requests ≤ n

all_terminate-append :
    (b : Bool) (rs : List Request) (r : Request)
    → all_terminate b (rs ++ r ∷ []) ≡ all_terminate b rs && r.request_termination
all_terminate-append b [] r = refl
all_terminate-append b (x ∷ rs) r = all_terminate-append (b && x.request_termination) rs r

any_commit-append :
    (b : Bool) (rs : List Request) (r : Request)
    → any_commit b (rs ++ r ∷ []) ≡ any_commit b rs || r.request_commit
any_commit-append b [] r = refl
any_commit-append b (x ∷ rs) r = any_commit-append (b || x.request_commit) rs r

collect-append :
    (m : SourceStates.SourceStates) (rs : List Request) (r : Request)
    → collect m (rs ++ r ∷ []) ≡ SourceStates.insert r.handle r.source_state (collect m rs)
collect-append m [] r = refl
collect-append m (x ∷ rs) r = collect-append (SourceStates.insert x.handle x.source_state m) rs r

-- There is information on the epoch if and only if some source wants to commit.
abbrev pub Informs : System → ℕ → Option EpochCommonInfo → Type 0
Informs s id none = any_commit false s.requests ≡ false
Informs s id (some info) =
    (any_commit false s.requests ≡ true)
    × (info.id ≡ id)
    × (info.source_states ≡ collect [] s.requests)

-- What a thread that leaves is told: all sources want to terminate, some source wants to commit,
-- the states of all sources, and the same as the threads that left before it.
pub record Told (s : System) (id : ℕ) (told : ClosedEpoch) : Type 0 where
  pub terminate : told.should_terminate ≡ all_terminate true s.requests
  pub informs : Informs s id told.common_info
  pub agrees : (s.decision ≡ none) ⊎ (s.decision ≡ some told)

module _ {n : ℕ} {options : EpochManagerOptions} (some_sources : 0 < n) where
  pub enters-IsCoherent :
      (s : System) (r : Request) (k : EpochManagerStateKind) (m : EpochManagerState)
      → s.manager.kind ≡ k
      → s.inside < n
      → enter r s.manager ≡ some m
      → IsCoherent n options s
      → IsCoherent n options
          (record s { manager = m; requests = s.requests ++ r ∷ []; inside = suc s.inside })
  unfolding enter join
  enters-IsCoherent s r (closing c) m e room h v = ground (
    arith,
    all_terminate-append true s.requests r,
    any_commit-append false s.requests r,
    collect-append [] s.requests r,
    length-append {0} s.requests (r ∷ []),
  )
  enters-IsCoherent s r (closed c) m e room h v = ground arith

  pub leaves-IsCoherent :
      (s : System) (now : ℕ) (k : EpochManagerStateKind) (told : ClosedEpoch)
      (m : EpochManagerState)
      → s.manager.kind ≡ k
      → length s.requests ≡ n
      → 1 < s.inside
      → leave n options now s.manager ≡ ok (told, m)
      → IsCoherent n options s
      → IsCoherent n options
          (record s { manager = m; inside = s.inside - 1; decision = first_told s.decision told })
  unfolding leave decide result common_info confirm
  leaves-IsCoherent s now (closing c) told m e full many h v = ground arith
  leaves-IsCoherent s now (closed c) told m e full many h v = ground arith

  pub leaves_last-IsCoherent :
      (s : System) (now : ℕ) (k : EpochManagerStateKind) (told : ClosedEpoch)
      (m : EpochManagerState)
      → s.manager.kind ≡ k
      → length s.requests ≡ n
      → s.inside ≡ 1
      → leave n options now s.manager ≡ ok (told, m)
      → IsCoherent n options s
      → IsCoherent n options (record { manager = m; requests = []; inside = 0; decision = none })
        × (epoch_id m.kind ≡ (
            if any_commit false s.requests
            then (epoch_id s.manager.kind + 1) % 2 ^ 64
            else epoch_id s.manager.kind))
  unfolding leave decide result common_info confirm new_closing
  leaves_last-IsCoherent s now (closing c) told m e full one h v = ground arith
  leaves_last-IsCoherent s now (closed c) told m e full one h v = ground arith

  pub leave-Told :
      (s : System) (now : ℕ) (k : EpochManagerStateKind) (told : ClosedEpoch)
      (m : EpochManagerState)
      → s.manager.kind ≡ k
      → leave n options now s.manager ≡ ok (told, m)
      → IsCoherent n options s
      → Told s (epoch_id s.manager.kind) told
  unfolding leave decide result common_info confirm
  leave-Told s now (closing c) told m e h v = record {
    terminate = ground arith;
    informs = ground arith;
    agrees = ground arith;
  }
  leave-Told s now (closed c) told m e h v = record {
    terminate = ground arith;
    informs = ground arith;
    agrees = ground arith;
  }
