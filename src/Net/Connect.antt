-- ===== src/Net/Connect.antt =====
-- `Connect` of src/connection.c.
use droidcam_linux_client.Prelude.{
  ℕ, ◌+◌, ◌-◌, ◌≡◌, ◌≢◌, Bool, true, false, not, ◌&&◌, ◌||◌, if◌then◌else◌, Option, none, some,
  List, [], ◌∷◌, ◌⊎◌, inl, inr, Bool-cases, arith,
}
use droidcam_linux_client.Prelude.Int.{ℤ, pos, ltb_ℤ, leb_ℤ}
use droidcam_linux_client.Net.Defs.{invalid_socket, is_invalid, Errno, would_block}

-- What the system answers during one call: the results of `socket` and of the first `fcntl`,
-- `errno` behind `connect`, the result of `select`, and whether both timeouts could be set.
pub record Answers : Type 0 where
  pub socket : ℤ
  pub flags : ℤ
  pub errno : Errno
  pub select : ℤ
  pub timeouts_ok : Bool

-- The message that the caller shows: `strerror(errno)`, or `DROIDCAM_CONNECT_ERROR`.
pub data ConnectMessage : Type 0 where
  system_error connect_error : ConnectMessage

-- A change of the descriptor that the system is asked for.
pub data SocketOp : Type 0 where
  opened closed non_blocking connecting blocking time_limited : SocketOp

abbrev pub in_progress : Errno → Bool
in_progress Errno.einprogress = true
in_progress e = would_block e

pub record Connected : Type 0 where
  pub socket : ℤ
  pub message : Option ConnectMessage
  pub ops : List SocketOp

abbrev pub failed_with : ConnectMessage → List SocketOp → Connected
failed_with m ops = record { socket = invalid_socket; message = some m; ops = ops }

-- A failed `setsockopt` is only reported.
unfoldable pub connect : Answers → Connected
connect a =
    if is_invalid a.socket
    then failed_with system_error []
    else if ltb_ℤ a.flags (pos 0)
    then failed_with system_error (opened ∷ closed ∷ [])
    else if not (in_progress a.errno) || leb_ℤ a.select (pos 0)
    then failed_with connect_error (opened ∷ non_blocking ∷ connecting ∷ closed ∷ [])
    else record {
      socket = a.socket;
      message = none;
      ops =
          opened
          ∷ non_blocking
          ∷ connecting
          ∷ blocking
          ∷ (if a.timeouts_ok then time_limited ∷ [] else []);
    }

-- Descriptors that a list of operations leaves open.
abbrev pub still_open : List SocketOp → ℕ → ℕ
still_open [] n = n
still_open (opened ∷ ops) n = still_open ops (n + 1)
still_open (closed ∷ ops) n = still_open ops (n - 1)
still_open (_ ∷ ops) n = still_open ops n

-- Whether the descriptor is in blocking mode behind the operations.
abbrev pub is_blocking : List SocketOp → Bool → Bool
is_blocking [] b = b
is_blocking (non_blocking ∷ ops) b = is_blocking ops false
is_blocking (blocking ∷ ops) b = is_blocking ops true
is_blocking (_ ∷ ops) b = is_blocking ops b

-- `socket` and `fcntl` succeed, `errno` says behind `connect` that the connection is in progress or
-- would block, and `select` reports the descriptor in time.
abbrev pub reached : Answers → Bool
reached a =
    not (is_invalid a.socket)
    && not (ltb_ℤ a.flags (pos 0))
    && in_progress a.errno
    && not (leb_ℤ a.select (pos 0))

-- `Connect` returns the descriptor that `socket` gave, with no message, open and in blocking mode,
-- if `socket` and `fcntl` succeed, `errno` says behind `connect` that the connection is in progress
-- or would block, and `select` reports the descriptor in time. Otherwise it returns INVALID_SOCKET
-- with a message and leaves no descriptor open.
pub connect_no_leak :
    (a : Answers)
    → ((reached a ≡ true)
        × ((connect a).socket ≡ a.socket)
        × ((connect a).message ≡ none)
        × (still_open (connect a).ops 0 ≡ 1)
        × (is_blocking (connect a).ops true ≡ true))
      ⊎ ((reached a ≡ false)
          × ((connect a).socket ≡ invalid_socket)
          × ((connect a).message ≢ none)
          × (still_open (connect a).ops 0 ≡ 0))
unfolding connect
connect_no_leak a = elim (Bool-cases (reached a)) [
  | inl ok ↦ inl (ok, ground arith, ground arith, ground arith, ground arith)
  | inr bad ↦ inr (bad, ground arith, ground arith, ground arith)
]
