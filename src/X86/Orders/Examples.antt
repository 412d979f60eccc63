-- ===== src/X86/Orders/Examples.antt =====
-- The theorem on the memory orders of double words at concrete views.
use concurrentfw.Prelude.{refl, inr, [], ◌==◌}
use concurrentfw.Atomic.Order.{consume, acquire_consume_iff}
use concurrentfw.Atomic.Views.{Includes, cpp20, Thread, nothing, fresh}
use concurrentfw.X86.Orders.{fast, dw_load_view, dw_store_view, dw_handed_over}

abbrev writer : Thread
writer = record { current = λ e. e == 3; acquirable = nothing; fenced = nothing }

dw_handed_over_example :
    Includes
      (dw_load_view fast consume (dw_store_view cpp20 fast 0 writer []).1 fresh).current
      writer.current
dw_handed_over_example =
    dw_handed_over cpp20 fast fast 0 consume writer fresh []
      ((acquire_consume_iff consume).1 (inr refl))
