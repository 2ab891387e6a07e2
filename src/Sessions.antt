-- ===== src/Sessions.antt =====
-- cmd/claw/pty.go and cmd/claw/terminal.go: the table of shell sessions.
--
-- A Session is shared by the table, its read loop and its waiting goroutine: it stands in `store`,
-- and the table holds its place. The terminal emulator is internal/xterm, a copy of another
-- project: the parameter Emulator. What startPty returns is an argument; ids and names of shells
-- are strings, display names texts.
pub mod Terminals
pub mod Names
pub mod Tables
pub mod Steps
pub mod Creation
pub mod Refinement
mod Tests
use clianywhere_daemon.Prelude.{
  ℕ, zero, suc, ◌+◌, ◌-◌, ◌/◌, ◌%◌, ◌^◌, Bool, true, false, not, ◌&&◌, ◌||◌, Option, none, some,
  List, [], ◌∷◌, ◌++◌, map, String, length, take, ltb, nat_beq, if◌then◌else◌, string_key, nat_key,
  ◌==◌,
}
use clianywhere_daemon.Prelude.Assoc.{Map, lookup, insert, delete}
use clianywhere_daemon.Protocol.{Bytes, SessionInfo}
use clianywhere_daemon.Batcher.{is_empty}
use clianywhere_daemon.Sessions.Terminals.{Emulator, Terminal, new_terminal, write, read, read_at}
use clianywhere_daemon.Sessions.Names.{choose_name}
use clianywhere_daemon.Text.{Text, trim_space, is_blank}

pub record Session (Screen : Type 0) : Type 0 where
  pub id : String
  pub pid : ℕ
  pub shell : String
  pub name : Text
  pub cols : ℕ
  pub rows : ℕ
  pub created_at : ℕ
  pub history : Terminal Screen
  pub controllers : Map String ℕ
  -- the PTY and the channel `done`, which Close closes once
  pub closed : Bool

pub record PtyManager (Screen : Type 0) : Type 0 where
  pub store : Map ℕ (Session Screen)
  pub allocated : ℕ
  pub sessions : Map String ℕ
  pub order : List String
  pub name_counter : ℕ

-- The fields of Config that the manager reads.
pub record PtyConfig : Type 0 where
  pub default_cols : ℕ
  pub default_rows : ℕ
  pub history_lines : ℕ

-- Broadcast: the writes that it makes
unfoldable pub broadcast : Bytes → Map String ℕ → List (ℕ × Bytes)
broadcast b [] = []
broadcast b ((client, c) ∷ rest) = (c, b) ∷ broadcast b rest

-- removeOrder: the first place with the id
unfoldable pub remove_order : String → List String → List String
remove_order id [] = []
remove_order id (k ∷ ks) = let rest = remove_order id ks in if k == id then ks else k ∷ rest

-- `infos = append(infos, …)` for an entry that is there
unfoldable pub append_info : Option SessionInfo → List SessionInfo → List SessionInfo
append_info none rest = rest
append_info (some i) rest = i ∷ rest

module _ {Screen : Type 0} where
  unfoldable pub new_pty_manager : PtyManager Screen
  new_pty_manager = record {
    store = [];
    allocated = 0;
    sessions = [];
    order = [];
    name_counter = 0;
  }

  -- Close, which `once` runs once
  unfoldable pub close : Session Screen → Session Screen
  close s = record s { closed = true }

  -- AddController, RemoveController, CloseAllControllers
  unfoldable pub add_controller : String → ℕ → Session Screen → Session Screen
  add_controller client c s = record s { controllers = insert client c s.controllers }

  unfoldable pub remove_controller : String → Session Screen → Session Screen
  remove_controller client s = record s { controllers = delete client s.controllers }

  unfoldable pub close_all_controllers : Session Screen → Session Screen
  close_all_controllers s = record s { controllers = [] }

  -- Get
  unfoldable pub get_session : String → PtyManager Screen → Option (Session Screen)
  get_session id m = elim (lookup id m.sessions) [ none ↦ none | some place ↦ lookup place m.store ]

  -- A change of the session at a place.
  unfoldable pub change_session :
      (Session Screen → Session Screen) → ℕ → PtyManager Screen → PtyManager Screen
  change_session f place m = elim (lookup place m.store) [
    | none ↦ m
    | some s ↦ record m { store = insert place (f s) m.store }
  ]

  -- The table after the session under an id is taken out.
  unfoldable pub take_out : String → PtyManager Screen → PtyManager Screen
  take_out id m = record m { sessions = delete id m.sessions; order = remove_order id m.order }

  -- Destroy
  unfoldable pub destroy : String → PtyManager Screen → PtyManager Screen
  destroy id m = elim (lookup id m.sessions) [
    | none ↦ m
    | some place ↦ change_session close place (take_out id m)
  ]

  -- waitExit of the session at a place, when its process has ended; OnExit gets its id.
  unfoldable pub wait_exit : ℕ → PtyManager Screen → PtyManager Screen × Option String
  wait_exit place m = elim (lookup place m.store) [
    | none ↦ (m, none)
    | some s ↦ (change_session close place (take_out s.id m), some s.id)
  ]

  -- The loop of DestroyAll
  unfoldable pub close_sessions : Map String ℕ → PtyManager Screen → PtyManager Screen
  close_sessions [] m = m
  close_sessions ((id, place) ∷ rest) m = close_sessions rest (change_session close place m)

  -- DestroyAll
  unfoldable pub destroy_all : PtyManager Screen → PtyManager Screen
  destroy_all m = record (close_sessions m.sessions m) { sessions = []; order = [] }

  unfoldable pub session_info : Session Screen → SessionInfo
  session_info s = record {
    id = s.id;
    pid = s.pid;
    shell = s.shell;
    created_at = s.created_at;
    name = s.name;
  }

  -- The entry of ListSessions for one id
  unfoldable pub info_at : Map ℕ (Session Screen) → Option ℕ → Option SessionInfo
  info_at store none = none
  info_at store (some place) = elim (lookup place store) [
    | none ↦ none
    | some s ↦ some (session_info s)
  ]

  -- The loop of ListSessions
  unfoldable pub list_from : Map ℕ (Session Screen) → Map String ℕ → List String → List SessionInfo
  list_from store table [] = []
  list_from store table (id ∷ ids) =
      append_info (info_at store (lookup id table)) (list_from store table ids)

  -- ListSessions
  unfoldable pub list_sessions : PtyManager Screen → List SessionInfo
  list_sessions m = list_from m.store m.sessions m.order

  module _ (e : Emulator Screen) where
    -- GetHistory and GetHistoryAt
    unfoldable pub get_history : String → PtyManager Screen → Bytes × ℕ
    get_history id m = elim (get_session id m) [ none ↦ ([], 0) | some s ↦ read e s.history ]

    unfoldable pub get_history_at : String → ℕ → ℕ → PtyManager Screen → Bytes × ℕ
    get_history_at id cols rows m = elim (get_session id m) [
      | none ↦ ([], 0)
      | some s ↦ read_at e cols rows s.history
    ]

    module _ (cfg : PtyConfig) where
      -- Resize of Terminal, with the recovery of PTYManager.Resize
      unfoldable pub resize_history : ℕ → ℕ → Terminal Screen → Terminal Screen
      resize_history cols rows t = elim (e.reflow t.screen cols rows) [
        | none ↦ new_terminal e cfg.history_lines cols rows
        | some screen ↦ record t { screen = screen; cols = cols; rows = rows }
      ]

      unfoldable pub resize_session : ℕ → ℕ → Session Screen → Session Screen
      resize_session cols rows s =
          if nat_beq s.cols cols && nat_beq s.rows rows
          then s
          else record s { history = resize_history cols rows s.history; cols = cols; rows = rows }

      -- Resize
      unfoldable pub resize : String → ℕ → ℕ → PtyManager Screen → PtyManager Screen
      resize id cols rows m = elim (lookup id m.sessions) [
        | none ↦ m
        | some place ↦ change_session (resize_session cols rows) place m
      ]

      -- ResizeIfNeeded
      unfoldable pub resize_if_needed :
          String → ℕ → ℕ → PtyManager Screen → PtyManager Screen × Bool
      resize_if_needed id cols rows m = elim (get_session id m) [
        | none ↦ (m, false)
        | some s ↦
            if nat_beq s.cols cols && nat_beq s.rows rows
            then (m, false)
            else (resize id cols rows m, true)
      ]

      -- The session that Create makes; a dimension that is not positive is 0 here.
      unfoldable pub new_session : String → String → ℕ → ℕ → Text → ℕ → ℕ → Session Screen
      new_session id shell asked_cols asked_rows name pid now =
          let cols = if nat_beq asked_cols 0 then cfg.default_cols else asked_cols in
          let rows = if nat_beq asked_rows 0 then cfg.default_rows else asked_rows in
          record {
            id = id;
            pid = pid;
            shell = shell;
            name = name;
            cols = cols;
            rows = rows;
            created_at = now;
            history = new_terminal e cfg.history_lines cols rows;
            controllers = [];
            closed = false;
          }

      -- Create, once startPty has given a process.
      unfoldable pub create :
          String → String → ℕ → ℕ → Text → ℕ → ℕ → PtyManager Screen → PtyManager Screen
      create id shell asked_cols asked_rows asked pid now m =
          let chosen = choose_name asked m.name_counter in
          record m {
            store =
                insert m.allocated (new_session id shell asked_cols asked_rows chosen.0 pid now)
                  m.store;
            allocated = m.allocated + 1;
            sessions = insert id m.allocated m.sessions;
            order = m.order ++ id ∷ [];
            name_counter = chosen.1;
          }

      -- CreatePool: for each round the id that generateID gives, the process that startPty
      -- starts, if it does, and the time
      unfoldable pub create_pool :
          String → List (String × Option ℕ × ℕ) → PtyManager Screen → PtyManager Screen
      create_pool shell [] m = m
      create_pool shell ((id, none, now) ∷ rest) m = create_pool shell rest m
      create_pool shell ((id, some pid, now) ∷ rest) m =
          create_pool shell rest (create id shell cfg.default_cols cfg.default_rows [] pid now m)

    -- The history after a write, on the session
    unfoldable pub record_output : Bytes → Session Screen → Session Screen
    record_output b s = record s { history = (write e b s.history).0 }

    -- One read of readLoop: the call of OnData, with the number of the write.
    unfoldable pub read_output :
        ℕ → Bytes → PtyManager Screen → PtyManager Screen × Option (String × Bytes × ℕ)
    read_output place b m =
        let called : Option (String × Bytes × ℕ) = elim (lookup place m.store) [
          | none ↦ none
          | some s ↦ some (s.id, b, (write e b s.history).1)
        ] in
        if is_empty b then (m, none) else (change_session (record_output b) place m, called)
