-- ===== src/DnsSender/Report.antt =====
-- src/dns_sender.cpp: differences of results, and what a session prints and writes of them. A quotient of two
-- floating point numbers is a dividend and a divisor where it is not cut off to an integer.
pub mod Differences
pub mod Network
use Prim.Native.String.{String}
use dnsmeter.Base.{
  ℤ, pos, ◌-ℤ◌, ℕ, zero, suc, ◌+◌, ◌-◌, ◌*◌, ◌/◌, ◌%◌, Bool, true, false, not, ◌&&◌, List, [], ◌∷◌,
  ◌++◌, Option, none, some, leb, ltb, ◌==◌, if◌then◌else◌, sub64,
}
use mathlib.Core.Option
use dnsmeter.RawSocketReceiver.{Counter}
use dnsmeter.DnsSenderThread.{DnsSenderThread}
use dnsmeter.DnsSender.{Results, clear, get_results}

-- `operator-`, on a new `Results`: `r` stands for what its arrays hold behind their ends.
unfoldable pub subtract : Results → Results → Results → Results
subtract r second first = record {
  queryrate = second.queryrate -ℤ first.queryrate;
  counter_send = sub64 second.counter_send first.counter_send;
  counter_received = sub64 second.counter_received first.counter_received;
  bytes_send = sub64 second.bytes_send first.bytes_send;
  bytes_received = sub64 second.bytes_received first.bytes_received;
  counter_errors = sub64 second.counter_errors first.counter_errors;
  packages_lost = sub64 second.packages_lost first.packages_lost;
  counter_0bytes = sub64 second.counter_0bytes first.counter_0bytes;
  counter_errorcodes = λ i.
      if ltb i 255
      then sub64 (second.counter_errorcodes i) (first.counter_errorcodes i)
      else r.counter_errorcodes i;
  rtt_total = second.rtt_total -ℤ first.rtt_total;
  rtt_avg =
      (let received = sub64 second.counter_received first.counter_received in
        if received == 0 then (pos 0, 1) else (second.rtt_total -ℤ first.rtt_total, received));
  rtt_min = second.rtt_min -ℤ first.rtt_min;
  rtt_max = second.rtt_max -ℤ first.rtt_max;
  rcodes = λ i. if ltb i 16 then sub64 (second.rcodes i) (first.rcodes i) else r.rcodes i;
  truncated = sub64 second.truncated first.truncated;
}

-- What `getResults` reads of the threads and the receiver.
pub record Pool : Type 0 where
  pub threads : List DnsSenderThread
  pub receiver : Option Counter

-- A line of `showCurrentStats`: hours, minutes and seconds, queries, and KB.
pub record Stats : Type 0 where
  pub h : ℕ
  pub m : ℕ
  pub s : ℕ
  pub queries_send : ℕ
  pub queries_received : ℕ
  pub kb_send : ℕ
  pub kb_received : ℕ

-- The line for the difference `diff` after `runtime` seconds.
unfoldable pub stats_line : ℕ → Results → Stats
stats_line runtime diff =
    let h = runtime / 3600 in
    let rest = runtime - h * 3600 in
    let m = rest / 60 in
    record {
      h = h;
      m = m;
      s = rest - m * 60;
      queries_send = diff.counter_send;
      queries_received = diff.counter_received;
      kb_send = diff.bytes_send / 1024;
      kb_received = diff.bytes_received / 1024;
    }

-- `showCurrentStats`, on `vis_prev_results` and the results of a new object. It returns the line and the
-- new `vis_prev_results`.
unfoldable pub show_current_stats : ℕ → Results → Results → Pool → Stats × Results
show_current_stats runtime prev result pool =
    let r = get_results result pool.threads pool.receiver in
    (stats_line runtime (subtract result r prev), r)

-- One round of the loop of `run`: `running` and `stopFlag`, the two readings of the clock, in seconds, and what
-- the threads and the receiver have counted.
pub record Poll : Type 0 where
  pub running : Bool
  pub stop_flag : Bool
  pub now : ℕ
  pub shown_at : ℕ
  pub pool : Pool

-- The loop of `run`. The result has the lines, and the last `vis_prev_results`.
unfoldable pub watch : ℕ → ℕ → Results → Results → List Poll → Option (List Stats × Results)
watch start report prev result [] = none
watch start report prev result (p ∷ ps) =
    let (line, next) = show_current_stats (p.shown_at - start) prev result p.pool in
    let shown = watch start (p.now + 1) next result ps in
    let silent = watch start report prev result ps in
    if p.running && not p.stop_flag
    then (if leb report p.now
        then Option.map (λ (w : List Stats × Results). (line ∷ w.0, w.1)) shown
        else silent)
    else some ([], prev)

-- The lines of the CSV file. Round trip times are in tenths of a millisecond, and the share that is lost is in
-- percent.
pub record Row : Type 0 where
  pub qps_send : ℕ
  pub qps_received : ℕ
  pub qps_errors : ℕ
  pub lostrate : ℕ × ℕ
  pub row_rtt_avg : ℤ × ℕ
  pub row_rtt_min : ℤ
  pub row_rtt_max : ℤ

pub data Line : Type 0 where
  heading : Line
  row : Row → Line

-- `openCSVFile` for appending, on the lines that the file has. `size` is 0 exactly where there are none.
unfoldable pub open_csv_file : List Line → List Line
open_csv_file [] = heading ∷ []
open_csv_file (l ∷ ls) = l ∷ ls

unfoldable pub csv_row : ℕ → Results → Row
csv_row runtime r = record {
  qps_send = r.counter_send / runtime;
  qps_received = r.counter_received / runtime;
  qps_errors = r.counter_errors / runtime;
  lostrate = (r.packages_lost * 100, r.counter_send);
  row_rtt_avg = r.rtt_avg;
  row_rtt_min = r.rtt_min;
  row_rtt_max = r.rtt_max;
}

-- `saveResultsToCsv`, on the lines of the file where it is open.
unfoldable pub save_results_to_csv : ℕ → Results → Option (List Line) → Option (List Line)
save_results_to_csv runtime r none = none
save_results_to_csv runtime r (some ls) = some (ls ++ (row (csv_row runtime r) ∷ []))

-- The numbers that `presentResults` prints of the results. An error has its number, its count, and its count a
-- second.
pub record Presented : Type 0 where
  pub send : ℕ
  pub qps_send : ℕ
  pub data_send : ℕ
  pub mbit_send : ℕ
  pub received : ℕ
  pub qps_received : ℕ
  pub data_received : ℕ
  pub mbit_received : ℕ
  pub lost : ℕ
  pub lostrate : ℕ × ℕ
  pub rtt_avg : ℤ × ℕ
  pub rtt_min : ℤ
  pub rtt_max : ℤ
  pub truncated : ℕ
  pub rcodes : List (ℕ × ℕ)
  pub errors : Option (ℕ × ℕ)
  pub errors_0bytes : Option (ℕ × ℕ)
  pub errorcodes : List (ℕ × ℕ × ℕ)

-- `if (count) printf(...)`, with the count a second.
abbrev pub if_any : ℕ → ℕ → Option (ℕ × ℕ)
if_any runtime count = if count == 0 then none else some (count, count / runtime)

-- The loop over the codes below `i + n`, from `i`.
unfoldable pub present_rcodes : ℕ → ℕ → (ℕ → ℕ) → List (ℕ × ℕ)
present_rcodes zero i rcodes = []
present_rcodes (suc n) i rcodes =
    let rest = present_rcodes n (i + 1) rcodes in
    if rcodes i == 0 then rest else (i, rcodes i) ∷ rest

unfoldable pub present_errorcodes : ℕ → ℕ → ℕ → (ℕ → ℕ) → List (ℕ × ℕ × ℕ)
present_errorcodes runtime zero i codes = []
present_errorcodes runtime (suc n) i codes =
    let rest = present_errorcodes runtime n (i + 1) codes in
    if ltb 0 (codes i) then (i, codes i, codes i / runtime) ∷ rest else rest

-- `presentResults`, without the line on the network interface.
unfoldable pub present_results : ℕ → Results → Presented
present_results runtime r = record {
  send = r.counter_send;
  qps_send = r.counter_send / runtime;
  data_send = r.bytes_send / 1024;
  mbit_send = r.bytes_send / runtime / (1024 * 1024);
  received = r.counter_received;
  qps_received = r.counter_received / runtime;
  data_received = r.bytes_received / 1024;
  mbit_received = r.bytes_received / runtime / (1024 * 1024);
  lost = r.packages_lost;
  lostrate = (r.packages_lost * 100, r.counter_send);
  rtt_avg = r.rtt_avg;
  rtt_min = r.rtt_min;
  rtt_max = r.rtt_max;
  truncated = r.truncated;
  rcodes = present_rcodes 15 0 r.rcodes;
  errors = if_any runtime r.counter_errors;
  errors_0bytes = if_any runtime r.counter_0bytes;
  errorcodes = present_errorcodes runtime 255 0 r.counter_errorcodes;
}
