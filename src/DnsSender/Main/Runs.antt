-- ===== src/DnsSender/Main/Runs.antt =====
-- src/dns_sender.cpp: runs that are set up and end by themselves.
use dnsmeter.Base.{
  ℕ, ◌+◌, ◌-◌, ◌/◌, ◌≤◌, ◌≡◌, ◌⊎◌, inl, inr, refl, true, false, not, ◌&&◌, List, [], ◌∷◌, map, some,
  arith, leb, ◌==◌, Bool-cases,
}
use dnsmeter.Exceptions.{ok}
use dnsmeter.DnsSenderThread.{DnsSenderThread, Ratio}
use dnsmeter.DnsSender.{Results, clear, configure, calc_timeslice}
use dnsmeter.DnsSender.Threads.{IsSlice, with_rate, set_rates-ok}
use dnsmeter.DnsSender.Report.{Stats, Poll, show_current_stats, watch}
use dnsmeter.DnsSender.Report.Differences.{Ends}
use dnsmeter.DnsSender.Main.{Watched, finished, run_started, report}

-- The set-up of a run without a limit, or of one whose time slice is accepted.
pub configure-ok :
    (n : ℕ) (slices : Ratio) (q : ℕ) (ts : List DnsSenderThread)
    → 1 ≤ n
    → (q ≡ 0) ⊎ ((1 ≤ q) × IsSlice (calc_timeslice n q))
    → IsSlice slices
    → (ms : Ratio) × (us : List DnsSenderThread) × (configure n slices q ts ≡ ok (ms, us))
      × IsSlice ms
unfolding configure
configure-ok n slices q ts one (inl unlimited) slice =
    let none : (q == 0) ≡ true = ground arith in
    (
      slices,
      map (with_rate (q / n) slices) ts,
      rw (none, set_rates-ok (q / n) slices ts slice.0 slice.1) refl,
      slice,
    )
configure-ok n slices q ts one (inr (some_rate, short)) slice =
    let asked : (q == 0) ≡ false = ground arith in
    (
      calc_timeslice n q,
      map (with_rate (q / n) (calc_timeslice n q)) ts,
      rw (asked, set_rates-ok (q / n) (calc_timeslice n q) ts short.0 short.1) refl,
      short,
    )

pub watch-returns :
    (start report : ℕ) (prev result : Results) (ps : List Poll)
    → Ends ps
    → (w : List Stats × Results) × (watch start report prev result ps ≡ some w)
unfolding watch
watch-returns start report prev result [] ends = elim ends [ ]
watch-returns start report prev result (p ∷ ps) ends =
    elim (Bool-cases (p.running && not p.stop_flag)) [
      | inr over ↦ (([], prev), rw over refl)
      | inl on ↦
          let later : Ends ps = elim ends [ inl over ↦ absurd (cc) | inr later ↦ later ] in
          let next = (show_current_stats (p.shown_at - start) prev result p.pool) in
          elim (Bool-cases (leb report p.now)) [
            | inl due ↦
                let (w, e) = watch-returns start (p.now + 1) next.1 result ps later in
                ((next.0 ∷ w.0, w.1), rw (on, due, e) refl)
            | inr wait ↦
                let (w, e) = watch-returns start report prev result ps later in
                (w, rw (on, wait, e) refl)
          ]
    ]

-- A run ends with the threads.
pub run_started-finished :
    (prev result : Results) (w : Watched)
    → Ends w.polls
    → w.stopped ≡ false
    → (lines : List Stats) × (run_started prev result w ≡ some (finished lines))
unfolding run_started
run_started-finished prev result w ends goes_on =
    let ((lines, last), e) = watch-returns w.start (w.start + 1) (clear prev) result w.polls ends in
    (lines, rw (e, goes_on, run_started) refl)
