-- ===== src/Service/Backup.antt =====
-- internal/service/platformfs.go: the worker that stores encrypted snapshots of the database. The
-- snapshot, the compression, the box and the text of the two files are parameters; the audit rows and
-- the log are left out.
pub mod Slots
use rosemary_virsree.Prelude.{
  ℕ, ◌+◌, ◌*◌, ◌/◌, ◌%◌, Bool, true, false, not, ◌&&◌, ◌||◌, Option, none, some, List, [], ◌∷◌,
  ◌++◌, ltb, if◌then◌else◌,
}
use rosemary_virsree.Prelude.Int.{ℤ, pos, ltb_ℤ, wrap64}
use rosemary_virsree.Prelude.Text.{Str, codes, str_eq}
use rosemary_virsree.Prelude.Results.{
  Error, Result, ok, err, source_unavailable, snapshot_failed, compression_failed,
  encryption_failed, capacity_insufficient, backup_write_failed, marker_write_failed,
}
use rosemary_virsree.Model.{StorageSource}
use rosemary_virsree.Store.Deletion.{second, minute}
use rosemary_virsree.Service.Backends.{Manager, primary}
use rosemary_virsree.Service.Uploads.{length}

pub record Status : Type 0 where
  pub initialized : Bool
  pub source_id : Str
  pub source_name : Str
  pub source_kind : Str
  pub backup_interval_seconds : ℕ
  pub retention : ℕ
  pub last_attempt_at : Option ℕ
  pub last_success_at : Option ℕ
  pub next_attempt_at : Option ℕ
  pub last_error : Option Error

-- `interval` is in nanoseconds.
pub record Worker : Type 0 where
  pub interval : ℕ
  pub retention : ℕ
  pub status : Status

unfoldable pub new_platform_filesystem : ℕ → ℕ → Worker
new_platform_filesystem interval retention = record {
  interval = interval;
  retention = retention;
  status = record {
    initialized = Bool.false;
    source_id = [];
    source_name = [];
    source_kind = [];
    backup_interval_seconds = interval / second;
    retention = retention;
    last_attempt_at = none;
    last_success_at = none;
    next_attempt_at = none;
    last_error = none;
  };
}

abbrev pub stale : Status → Status
stale s = record s { initialized = Bool.false; last_success_at = none }

-- The status for the primary source of this moment.
unfoldable pub shown_status : Manager → Status → Status
shown_status m s = elim (primary m) [
  | none ↦ s
  | some p ↦
      let t =
        if not (str_eq s.source_id []) && not (str_eq s.source_id p.meta.id) then stale s else s in
      record t { source_id = p.meta.id; source_name = p.meta.name; source_kind = p.meta.kind }
]

abbrev pub max : ℕ → ℕ → ℕ
max a b = if ltb a b then b else a

-- The slot of a backup, at `now` nanoseconds.
unfoldable pub slot : ℕ → ℕ → ℕ → ℕ
slot interval retention now = now / second / max 60 (interval / second) % retention

abbrev pub prefix : Str
prefix = codes "virsree-system/v1"

abbrev pub digit : ℕ → ℕ
digit n = 48 + n

-- %02d of a number below 100
abbrev pub two_digits : ℕ → Str
two_digits n = digit (n / 10) ∷ digit (n % 10) ∷ []

unfoldable pub backup_key : ℕ → Str
backup_key n = prefix ++ (codes "/backups/slot-" ++ (two_digits n ++ codes ".rvsbak"))

unfoldable pub marker_key : Str
marker_key = prefix ++ codes "/filesystem.json"

-- No room for `n` more bytes on the source.
abbrev pub is_full : StorageSource → ℕ → Bool
is_full s n =
    not s.capacity_unlimited
    && ltb_ℤ s.capacity_bytes (wrap64 (pos (s.used_bytes + s.reserved_bytes + n)))

-- What the worker calls: the snapshot of the database, gzip, the box, the texts of the two files, and
-- Put of a backend at a source, a key and a text.
pub record Files (W : Type 0) : Type 0 where
  pub snapshot : W → Option Str
  pub compress : Str → Option Str
  pub seal : Str → Option Str
  pub envelope : ℕ → Str → Str
  pub marker : ℕ → ℕ → Str
  pub put : Str → Str → Str → W → Bool × W

module _ {W : Type 0} (files : Files W) where
  abbrev pub sealed_snapshot : W → Result Str
  sealed_snapshot w = elim (files.snapshot w) [
    | none ↦ err snapshot_failed
    | some text ↦ elim (files.compress text) [
      | none ↦ err compression_failed
      | some packed ↦ elim (files.seal packed) [
        | none ↦ err encryption_failed
        | some cipher ↦ ok cipher
      ]
    ]
  ]

  abbrev pub put_marker : Worker → ℕ → StorageSource → Bool × W → Result StorageSource × W
  put_marker f now source (false, w) = (err backup_write_failed, w)
  put_marker f now source (true, w) =
      let r = files.put source.id marker_key (files.marker f.retention now) w in
      if r.0 then (ok source, r.1) else (err marker_write_failed, r.1)

  abbrev pub store_backup : Worker → ℕ → StorageSource → W → Result Str → Result StorageSource × W
  store_backup f now source w (err e) = (err e, w)
  store_backup f now source w (ok cipher) =
      let text = files.envelope now cipher in
      if is_full source (length text)
      then (err capacity_insufficient, w)
      else put_marker f now source
          (files.put source.id (backup_key (slot f.interval f.retention now)) text w)

  -- The source that took the backup.
  unfoldable pub write_backup : Worker → Manager → ℕ → W → Result StorageSource × W
  unfolding slot backup_key marker_key
  write_backup f m now w = elim (primary m) [
    | none ↦ (err source_unavailable, w)
    | some p ↦ store_backup f now p.meta w (sealed_snapshot w)
  ]

  abbrev pub attempted : ℕ → Worker → Worker
  attempted now f = record f {
    status = record f.status { last_attempt_at = some now; last_error = none };
  }

  abbrev pub recorded : ℕ → Worker → Result StorageSource → Worker
  recorded now f (err e) = record f { status = record f.status { last_error = some e } }
  recorded now f (ok s) = record f {
    status = record f.status {
      initialized = Bool.true;
      source_id = s.id;
      source_name = s.name;
      source_kind = s.kind;
      last_success_at = some now;
      last_error = none;
    };
  }

  unfoldable pub backup : Worker → Manager → ℕ → W → Result StorageSource × (Worker × W)
  unfolding write_backup
  backup f m now w =
      let r = write_backup f m now w in (r.0, (recorded now (attempted now f) r.0, r.1))

  -- The wait until the next attempt.
  abbrev pub delay : Worker → Result StorageSource → ℕ
  delay f (ok s) = f.interval
  delay f (err e) = if ltb f.interval minute then f.interval else minute

  -- One round of Run at the time `now`, whose backup ends at `done`.
  unfoldable pub round : Worker → Manager → ℕ → ℕ → W → ℕ × (Worker × W)
  unfolding backup
  round f m now done w =
      let r = backup f m now w in
      let next = done + delay f r.0 in
      let worker = r.1.0 in
      (
        delay f r.0,
        (record worker { status = record worker.status { next_attempt_at = some next } }, r.1.1),
      )
