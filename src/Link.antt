-- ===== src/Link.antt =====
-- The packets and events as they lie in memory: src/hal/comm/nrf24l01_ll.h and the structures of
-- hal/nrf24.h. The structs are packed, and 16-bit members are little-endian.
use knot_hal_source.Prelude.{ℕ, ◌+◌, ◌-◌, ◌*◌, ◌/◌, ◌%◌, List, get_or, set, write_at, slice}

abbrev pub nrf24_mtu : ℕ
nrf24_mtu = 32

-- `sizeof(struct nrf24_ll_data_pdu)`
abbrev pub data_hdr_size : ℕ
data_hdr_size = 2

abbrev pub nrf24_pw_msg_size : ℕ
nrf24_pw_msg_size = nrf24_mtu - data_hdr_size

abbrev pub pdu_type_presence : ℕ
pdu_type_presence = 1

abbrev pub pdu_type_connect_req : ℕ
pdu_type_connect_req = 3

abbrev pub lid_data_frag : ℕ
lid_data_frag = 0

abbrev pub lid_data_end : ℕ
lid_data_end = 1

abbrev pub lid_control : ℕ
lid_control = 3

abbrev pub op_keepalive_req : ℕ
op_keepalive_req = 1

abbrev pub op_keepalive_rsp : ℕ
op_keepalive_rsp = 2

abbrev pub op_disconnect : ℕ
op_disconnect = 4

abbrev pub keepalive_send_ms : ℕ
keepalive_send_ms = 750

abbrev pub keepalive_timeout_ms : ℕ
keepalive_timeout_ms = 10 * keepalive_send_ms

abbrev pub evt_connected : ℕ
evt_connected = 0x0201

abbrev pub evt_disconnected : ℕ
evt_disconnected = 0x0202

abbrev pub evt_bcast_presence : ℕ
evt_bcast_presence = 0x0205

-- The bit-field `type:4` of `struct nrf24_ll_mgmt_pdu`, the low half of the first byte.
abbrev pub mgmt_type : List ℕ → ℕ
mgmt_type p = get_or p 0 0 % 16

abbrev pub set_mgmt_type : ℕ → List ℕ → List ℕ
set_mgmt_type t p = set p 0 (get_or p 0 0 / 16 * 16 + t)

-- The bit-fields `lid:2` and `nseq:6` of `struct nrf24_ll_data_pdu`.
abbrev pub lid : List ℕ → ℕ
lid p = get_or p 0 0 % 4

abbrev pub nseq : List ℕ → ℕ
nseq p = get_or p 0 0 / 4 % 64

abbrev pub set_lid : ℕ → List ℕ → List ℕ
set_lid l p = set p 0 (get_or p 0 0 / 4 * 4 + l)

abbrev pub set_nseq : ℕ → List ℕ → List ℕ
set_nseq n p = set p 0 (get_or p 0 0 % 4 + n % 64 * 4)

-- `struct nrf24_ll_crtl_pdu` stands behind the data header, and behind its opcode the source and
-- destination addresses of `struct nrf24_ll_keepalive` and `struct nrf24_ll_disconnect`.
abbrev pub ctrl_opcode : List ℕ → ℕ
ctrl_opcode p = get_or p 2 0

abbrev pub ctrl_src_addr : List ℕ → List ℕ
ctrl_src_addr p = slice 3 8 p

abbrev pub ctrl_dst_addr : List ℕ → List ℕ
ctrl_dst_addr p = slice 11 8 p

-- A control packet over what the payload held before.
abbrev pub ctrl_pdu : ℕ → List ℕ → List ℕ → List ℕ → List ℕ
ctrl_pdu op src dst p = write_at (write_at (set (set_lid lid_control p) 2 op) 11 dst) 3 src

-- the sum of the three structs' sizes
abbrev pub ctrl_pdu_size : ℕ
ctrl_pdu_size = 2 + 1 + 16

-- `struct nrf24_ll_presence`, behind the management header
abbrev pub presence_mac : List ℕ → List ℕ
presence_mac p = slice 1 8 p

-- `struct nrf24_ll_mgmt_connect`, behind the management header
abbrev pub connect_src : List ℕ → List ℕ
connect_src p = slice 1 8 p

abbrev pub connect_dst : List ℕ → List ℕ
connect_dst p = slice 9 8 p

abbrev pub connect_channel : List ℕ → ℕ
connect_channel p = get_or p 17 0

abbrev pub connect_aa : List ℕ → List ℕ
connect_aa p = slice 18 5 p

abbrev pub mgmt_connect_size : ℕ
mgmt_connect_size = 8 + 8 + 1 + 5 + 8

-- `struct mgmt_nrf24_header`: a 16-bit opcode and an index. The payload begins at 3.
abbrev pub header_size : ℕ
header_size = 3

abbrev pub evt_opcode : List ℕ → ℕ
evt_opcode b = get_or b 0 0 + get_or b 1 0 * 256

abbrev pub set_evt_opcode : ℕ → List ℕ → List ℕ
set_evt_opcode op b = set (set b 0 (op % 256)) 1 (op / 256)

-- `struct mgmt_evt_nrf24_connected`
abbrev pub evt_cn_src : List ℕ → List ℕ
evt_cn_src b = slice 3 8 b

abbrev pub evt_cn_dst : List ℕ → List ℕ
evt_cn_dst b = slice 11 8 b

abbrev pub evt_cn_aa : List ℕ → List ℕ
evt_cn_aa b = slice 20 5 b

abbrev pub evt_connected_size : ℕ
evt_connected_size = 8 + 8 + 1 + 5

-- `struct mgmt_evt_nrf24_disconnected`
abbrev pub evt_dc_mac : List ℕ → List ℕ
evt_dc_mac b = slice 3 8 b

abbrev pub evt_disconnected_size : ℕ
evt_disconnected_size = 8
