-- ===== src/Create/Shares.antt =====
-- How many objects of each pool a PD gets that may create PDs, in the order of the pools.
use mathlib.Core.Path.{fun_ext}
use se_l4cp_poc.Prelude.{
  ℕ, zero, suc, ◌+◌, ◌*◌, ◌≤◌, ◌≡◌, ◌≢◌, refl, sym, ap, ◌∙◌, inl, inr, arith, ltb, ltb→lt, lt→ltb,
  ltb-false, ltb_false→le, Bool-cases, if◌then◌else◌,
}
use se_l4cp_poc.Layout.{
  Pool, tcbs, notifications, cnodes, schedcontexts, vspaces, page_upper_directories,
  page_directories, page_tables, pages, pool_num, pool_num_pd_targets_child,
}
use se_l4cp_poc.Machine.State.{AllocationState, idx, set_idx}
use se_l4cp_poc.Machine.Bounds.{IsBounded}

pub Pool-discrete : Discrete Pool
Pool-discrete = hlevel

-- The order in which the pools are handed over.
abbrev pub rank : Pool → ℕ
rank tcbs = 0
rank notifications = 1
rank cnodes = 2
rank schedcontexts = 3
rank vspaces = 4
rank page_upper_directories = 5
rank page_directories = 6
rank page_tables = 7
rank pages = 8

-- How many objects of each pool the PD gets.
abbrev pub child_share : Pool → ℕ
child_share page_upper_directories = pool_num_pd_targets_child * 2
child_share page_directories = pool_num_pd_targets_child * 4
child_share page_tables = pool_num_pd_targets_child * 6
child_share pages = pool_num_pd_targets_child * 30
child_share _ = pool_num_pd_targets_child

-- How many it has after the first `k` pools.
abbrev pub share : ℕ → Pool → ℕ
share k p = if ltb (rank p) k then child_share p else 0

pub share_none : (p : Pool) → share 0 p ≡ 0
share_none p = rw (ltb-false (rank p) 0 (omega arith)) refl

pub bound : (p : Pool) (s : AllocationState) → IsBounded s → idx p s ≤ pool_num p
bound tcbs s h = h.tcb
bound notifications s h = h.notification
bound cnodes s h = h.cnode
bound schedcontexts s h = h.schedcontext
bound vspaces s h = h.vspace
bound page_upper_directories s h = h.page_upper_directory
bound page_directories s h = h.page_directory
bound page_tables s h = h.page_table
bound pages s h = h.page

pub other_idx : (q p : Pool) (n : ℕ) (s : AllocationState) → q ≢ p → idx q (set_idx p n s) ≡ idx q s
other_idx tcbs tcbs n s h = absurd (h refl)
other_idx notifications notifications n s h = absurd (h refl)
other_idx cnodes cnodes n s h = absurd (h refl)
other_idx schedcontexts schedcontexts n s h = absurd (h refl)
other_idx vspaces vspaces n s h = absurd (h refl)
other_idx page_upper_directories page_upper_directories n s h = absurd (h refl)
other_idx page_directories page_directories n s h = absurd (h refl)
other_idx page_tables page_tables n s h = absurd (h refl)
other_idx pages pages n s h = absurd (h refl)
other_idx _ _ n s h = refl

pool_at : ℕ → Pool
pool_at zero = tcbs
pool_at (suc zero) = notifications
pool_at (suc (suc zero)) = cnodes
pool_at (suc (suc (suc zero))) = schedcontexts
pool_at (suc (suc (suc (suc zero)))) = vspaces
pool_at (suc (suc (suc (suc (suc zero))))) = page_upper_directories
pool_at (suc (suc (suc (suc (suc (suc zero)))))) = page_directories
pool_at (suc (suc (suc (suc (suc (suc (suc zero))))))) = page_tables
pool_at (suc (suc (suc (suc (suc (suc (suc (suc n)))))))) = pages

pool_at-rank : (p : Pool) → pool_at (rank p) ≡ p
unfolding pool_at
pool_at-rank tcbs = refl
pool_at-rank _ = refl

pub share_elsewhere : (k : ℕ) (q p : Pool) → rank p ≡ k → q ≢ p → share (k + 1) q ≡ share k q
share_elsewhere k q p at_k other =
    let apart : rank q ≢ k =
      λ is. other (sym (pool_at-rank q) ∙ ap pool_at (is ∙ sym at_k) ∙ pool_at-rank p) in
    elim (Bool-cases (ltb (rank q) k)) [
      | inl given ↦ rw (given, lt→ltb (rank q) (k + 1) (omega (arith, ltb→lt _ _ given))) refl
      | inr not_given ↦
          rw
            (
              not_given,
              ltb-false (rank q) (k + 1) (omega (arith, ltb_false→le _ _ not_given, apart)),
            )
            refl
    ]

pub share_before : (k : ℕ) (p : Pool) → rank p ≡ k → share k p ≡ 0
share_before k p at_k = rw (ltb-false (rank p) k (omega (arith, at_k))) refl

pub share_after : (k : ℕ) (p : Pool) → rank p ≡ k → share (k + 1) p ≡ child_share p
share_after k p at_k = rw (lt→ltb (rank p) (k + 1) (omega (arith, at_k))) refl

pub all_shared : share 9 ≡ child_share
all_shared = fun_ext by_pool
  where
    by_pool : (p : Pool) → share 9 p ≡ child_share p
    by_pool tcbs = refl
    by_pool _ = refl
