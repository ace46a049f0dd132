-- ===== src/H2/Flow/Bounds.antt =====
-- The global window stays an `i32`.
use qhttp.Base.{ℕ, zero, suc, Bool, List, ok, arith, length, ◌≡◌}
use qhttp.Base.Int.{ℤ, IsI32, checked_add}
use qhttp.H2.Flow.{
  Windows, again, update_global_window, serve_request, window_round, distribute_from,
  distribute_window,
}

pub update_global_window-IsI32 : (w a w' : ℤ) → update_global_window w a ≡ ok w' → IsI32 w'
unfolding update_global_window checked_add
update_global_window-IsI32 w a w' h = ground arith

module _ (streams sent : ℕ → Bool) where
  serve_request-IsI32 :
      (g : ℤ) (id : ℕ) (wanted : ℤ) (rest : List (ℕ × ℤ)) {gifts : List (ℕ × ℤ)} {w' : Windows}
      → serve_request streams sent g id wanted rest ≡ ok (again gifts w')
      → IsI32 w'.global_window
  unfolding serve_request update_global_window checked_add
  serve_request-IsI32 g id wanted rest h = ground arith

  window_round-IsI32 :
      (w : Windows) {gifts : List (ℕ × ℤ)} {w' : Windows}
      → window_round streams sent w ≡ ok (again gifts w')
      → IsI32 w.global_window
      → IsI32 w'.global_window
  unfolding window_round
  window_round-IsI32 w h i = grind (arith, serve_request-IsI32)

  distribute_from-IsI32 :
      (fuel : ℕ) (w : Windows) {r : Windows × List (ℕ × ℤ)}
      → distribute_from streams sent fuel w ≡ ok r
      → IsI32 w.global_window
      → IsI32 (r.0).global_window
  unfolding distribute_from
  distribute_from-IsI32 zero w h i = ground arith
  distribute_from-IsI32 (suc fuel) w h i =
      grind (arith, window_round-IsI32, distribute_from-IsI32 fuel)

  pub distribute_window-IsI32 :
      (w : Windows) {r : Windows × List (ℕ × ℤ)}
      → distribute_window streams sent w ≡ ok r
      → IsI32 w.global_window
      → IsI32 (r.0).global_window
  unfolding distribute_window
  distribute_window-IsI32 w = distribute_from-IsI32 (suc (length w.requests)) w
