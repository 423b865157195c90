-- ===== src/App/Signals.antt =====
-- src/app/PauseSignals.h and PauseSignals.cpp, and pauseReasonNow of src/app/SenderApp.cpp: why a
-- session is paused. What Windows answers is an argument.
use opendisplay_win.Common.{
  ℕ, ◌==◌, if◌then◌else◌, Bool, true, false, not, ◌&&◌, ◌||◌, Option, none, some, Bytes, codes,
}

pub data InputDesktop : Type 0 where
  default_desktop secure other_desktop : InputDesktop

pub data SessionLock : Type 0 where
  locked unlocked unknown : SessionLock

pub data PauseReason : Type 0 where
  no_pause lock_screen asleep admin paused_reason : PauseReason

-- The first option is the desktop, if it opens, and the second its name, if it can be asked. `same`
-- is _wcsicmp.
unfoldable pub current_input_desktop : (Bytes → Bytes → Bool) → Option (Option Bytes) → InputDesktop
current_input_desktop same none = secure
current_input_desktop same (some none) = other_desktop
current_input_desktop same (some (some name)) =
    if same name (codes "Default")
    then default_desktop
    else if same name (codes "Winlogon")
    then secure
    else other_desktop

-- WTSINFOEXW, and its two flags.
pub record SessionInfo : Type 0 where
  pub complete : Bool
  pub level : ℕ
  pub session_flags : ℕ

pub record LockFlags : Type 0 where
  pub lock : ℕ
  pub unlock : ℕ

unfoldable pub query_session_lock : LockFlags → Option SessionInfo → SessionLock
query_session_lock f none = unknown
query_session_lock f (some i) =
    if i.complete && i.level == 1
    then (if i.session_flags == f.lock
        then locked
        else if i.session_flags == f.unlock
        then unlocked
        else unknown)
    else unknown

unfoldable pub is_session_locked : LockFlags → Option SessionInfo → Bool → Bool
is_session_locked f none flag = flag
is_session_locked f (some i) flag =
    if i.complete && i.level == 1 then i.session_flags == f.lock else flag

abbrev pub is_default : InputDesktop → Bool
is_default default_desktop = true
is_default _ = false

abbrev pub is_locked : SessionLock → Bool
is_locked locked = true
is_locked _ = false

abbrev pub is_unlocked : SessionLock → Bool
is_unlocked unlocked = true
is_unlocked _ = false

-- PauseSignals: the flags that the tray sets.
pub record Flags : Type 0 where
  pub locked_flag : Bool
  pub display_off : Bool

-- `PauseSignals::locked` after a lock that was never heard to end.
abbrev pub lock_flag_now : InputDesktop → SessionLock → Bool → Bool
lock_flag_now desk wts flag = if flag && is_unlocked wts && is_default desk then false else flag

unfoldable pub pause_reason_now : InputDesktop → SessionLock → Bool → Flags → PauseReason × Flags
pause_reason_now desk wts consent_running f =
    let flag = lock_flag_now desk wts f.locked_flag in
    let consent = not (is_default desk) && consent_running in
    (
      if flag || is_locked wts || not (is_default desk) && not consent
          then lock_screen
          else if consent
          then admin
          else if f.display_off
          then asleep
          else no_pause,
      record f { locked_flag = flag },
    )

-- src/display/PauseOverlay.cpp
unfoldable pub pause_hides_desktop : PauseReason → Bool
pause_hides_desktop lock_screen = true
pause_hides_desktop admin = true
pause_hides_desktop asleep = true
pause_hides_desktop _ = false
