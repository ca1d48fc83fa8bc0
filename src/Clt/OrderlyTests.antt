-- ===== src/Clt/OrderlyTests.antt =====
-- The run of Clt/Tests.antt once more, for the theorem on the pointers of src/clt/clt.c.
use libiapp.Base.{ℕ, refl, pos, has, has_nil, arith}
use libiapp.Fde.Register.{fde_create}
use libiapp.Netbuf.Alloc.{iapp_netbuf_alloc}
use libiapp.Comm.State.{completed, eof}
use libiapp.Comm.Create.{comm_create}
use libiapp.Clt.Handlers.{clt_read_cb, clt_close_cb, conn_connect_cb, conn_ev_cleanup_cb}
use libiapp.Clt.App.{thrclt_open_new_conn, thrclt_ev_newconn_cb}
use libiapp.Clt.Alive.{AreAlive}
use libiapp.Clt.Unharmed.{Makes}
use libiapp.Clt.Orderly.{
  OrderlyReach, here, rounds, connects, reads, closes, cleans, OrderlyReach-AreAlive,
}
use libiapp.Clt.Tests.{start, answers, noon, one}

answers-Makes : (j : ℕ) → Makes (answers.opens j)
unfolding comm_create fde_create
answers-Makes j = (λ h fd. refl, λ h. refl)

start-AreAlive : AreAlive start
start-AreAlive = record { alive = λ c p. ground (arith, has_nil c, p); unharmed = refl }

one_orderly : OrderlyReach start one
unfolding thrclt_ev_newconn_cb conn_connect_cb clt_read_cb clt_close_cb conn_ev_cleanup_cb has
    thrclt_open_new_conn iapp_netbuf_alloc comm_create fde_create
one_orderly =
    cleans 0
      (closes 0
        (reads eof (pos 0) 0
          (connects completed 0 (rounds 2 answers noon here answers-Makes refl) refl refl) refl
          refl)
        refl)
      refl refl

OrderlyReach-AreAlive_example : AreAlive one
OrderlyReach-AreAlive_example = OrderlyReach-AreAlive one_orderly start-AreAlive
