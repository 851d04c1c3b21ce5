-- ===== src/Pn/Abandon.antt =====
-- The end of a packet number space: `abandon_pn` of lib/src/pn.c, with `validate_pmtu` of
-- lib/src/pkt.c. The ciphers that are freed are not modelled.
use quant.Base.{ℕ, ◌/◌, ◌%◌, ◌^◌, not, ◌&&◌, Option, none, some, ◌==◌, if◌then◌else◌, ◌>>=◌, min}
use quant.Diet.Tree.{SplayOps}
use quant.Conn.Packets.{PnType, pn_init, pn_hshk, pn_data, StrmId, cry_init, cry_hshk}
use quant.Conn.State.{Conn, get_pn, set_pn}
use quant.Pn.Sent.{free_pn}
use quant.Recovery.Lost.{uint16_max}
use quant.Stream.Store.{deref_strm}
use quant.Stream.Life.{free_stream}

-- `w_max` is what `w_max_udp_payload` returns; the address family is left out.
unfoldable pub validate_pmtu : ℕ → Conn → Conn
validate_pmtu w_max c = record c {
  rec = record (c.rec) { max_ups = min w_max (c.tp_peer.max_ups % 2 ^ 16) };
  pmtud_pkt = uint16_max;
}

abbrev pub pn_nr : PnType → ℕ
pn_nr pn_init = 0
pn_nr pn_hshk = 1
pn_nr pn_data = 2

module _ (ops : SplayOps) (w_max : ℕ) where
  -- The crypto stream of the space is freed, and the space. `none` is a failed check.
  unfoldable pub end_space : Conn → PnType → StrmId → Option Conn
  unfolding free_stream free_pn
  end_space c p cry =
      let c1 =
        if not (c.pmtud_pkt == uint16_max) && c.pmtud_pkt / 2 ^ 14 == pn_nr p
        then validate_pmtu w_max c
        else c in
      let freed : Option Conn = elim (deref_strm c1 cry) [
        | none ↦ some c1
        | some s ↦ free_stream ops c1 s
      ] in
      freed >>= λ c2. some (set_pn c2 p (free_pn (get_pn c2 p)))

  unfoldable pub abandon_pn : Conn → PnType → Option Conn
  unfolding end_space validate_pmtu
  abandon_pn c pn_init = end_space c pn_init cry_init
  abandon_pn c pn_hshk = end_space c pn_hshk cry_hshk
  abandon_pn c pn_data = none
