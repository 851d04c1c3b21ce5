-- ===== src/Conn/Packets.antt =====
-- What a sent packet and a packet number space keep: `struct pkt_meta` of lib/src/quic.h and
-- `struct pn_space` of lib/src/pn.h, less ciphers, the ECN counters of the peer and the positions of payload bytes.
use quant.Base.{ℕ, Bool, Option, List}
use quant.Diet.Tree.{Diet}

-- `struct frames`: which frame types are present.
abbrev pub Frames : Type 0
Frames = ℕ → Bool

pub data PnType : Type 0 where
  pn_init pn_hshk pn_data : PnType

pub data Epoch : Type 0 where
  ep_init ep_0rtt ep_hshk ep_data : Epoch

-- `dint_t id` of a stream: one of the negative numbers of `crpt_strm_id` (-4, -2 and -1, by the
-- epoch), or a number on the wire.
pub data StrmId : Type 0 where
  cry_init cry_hshk cry_data : StrmId
  numbered : ℕ → StrmId

-- A stretch of stream data in a received packet: its offset, length and end mark.
pub record Seg : Type 0 where
  pub off : ℕ
  pub len : ℕ
  pub fin : Bool

pub record PktMeta : Type 0 where
  pub frms : Frames
  pub strm : Option StrmId
  -- What the frames of the packet announced, if sent.
  pub max_strm_data_sid : StrmId
  pub max_strm_data : ℕ
  pub max_data : ℕ
  pub strm_data_blocked : ℕ
  pub data_blocked : ℕ
  pub min_cid_seq : ℕ
  pub retire_cid_seq : ℕ
  -- The stream data of the packet.
  pub strm_off : ℕ
  pub strm_data_len : ℕ
  pub is_fin : Bool
  -- `m->pn`, by its type.
  pub pn : PnType
  pub nr : ℕ
  pub hdr_type : ℕ
  pub t : ℕ
  pub udp_len : ℕ
  pub has_rtx : Bool
  pub in_flight : Bool
  pub ack_eliciting : Bool
  pub acked : Bool
  pub lost : Bool
  pub txed : Bool

pub record PnSpace : Type 0 where
  pub rx_frames : Frames
  pub tx_frames : Frames
  pub recv : Diet
  pub recv_all : Diet
  pub acked_or_lost : Diet
  pub sent_pkt_nrs : Diet
  -- The hash table of sent packets, keyed by their number.
  pub sent_pkts : List PktMeta
  -- `ecn_rxed`, by the mark.
  pub ecn_ect0 : ℕ
  pub ecn_ect1 : ℕ
  pub ecn_ce : ℕ
  pub lg_sent : ℕ
  pub lg_acked : ℕ
  pub pkts_rxed_since_last_ack_tx : ℕ
  pub pkts_lost_since_last_ack_tx : ℕ
  pub loss_t : ℕ
  pub last_ae_tx_t : ℕ
  pub type : PnType
  pub imm_ack : Bool
  pub abandoned : Bool
