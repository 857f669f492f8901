-- ===== src/Budget/Final.antt =====
-- The output that was sent with the results stays as it is (iperf_output_budget.c).
use iperf_swift.Prelude.{◌≡◌, refl, ap, ◌∙◌, Bool, true, Option, List, [], ◌∷◌, arith}
use iperf_swift.Budget.{Budget}
use iperf_swift.Budget.Text.{collect_printf}
use iperf_swift.Budget.Json.{Document, collect_interval, finalize_output, add_server_results}
use iperf_swift.Budget.Bounds.{Call, prints, interval, results, collect, collect_all}

collect_of_finalized : (call : Call) (b : Budget) → b.finalized ≡ true → collect call b ≡ b
unfolding collect collect_printf collect_interval finalize_output add_server_results
collect_of_finalized (prints allocates prefix formatted) b done = ground arith
collect_of_finalized (interval allocates tree printed) b done = ground arith
collect_of_finalized (results allocates document adds) b done = ground arith

collect_all_of_finalized :
    (calls : List Call) (b : Budget) → b.finalized ≡ true → collect_all calls b ≡ b
unfolding collect_all
collect_all_of_finalized [] b done = refl
collect_all_of_finalized (call ∷ calls) b done =
    ap (collect_all calls) (collect_of_finalized call b done)
    ∙ collect_all_of_finalized calls b done

finalize_output_finalized :
    (allocates : Bool) (document : Option Document) (b : Budget)
    → (finalize_output allocates document b).finalized ≡ true
unfolding finalize_output
finalize_output_finalized allocates document b = ground arith

-- Once the results were made, no later print, interval or making of results changes the collected
-- output or its counters.
pub collect_all-add_server_results :
    (allocates : Bool) (document : Option Document) (adds : Bool) (calls : List Call) (b : Budget)
    → let b' = (add_server_results allocates document adds b).0 in collect_all calls b' ≡ b'
unfolding add_server_results
collect_all-add_server_results allocates document adds calls b =
    collect_all_of_finalized calls (finalize_output allocates document b)
      (finalize_output_finalized allocates document b)
