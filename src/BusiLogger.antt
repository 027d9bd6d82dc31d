-- ===== src/BusiLogger.antt =====
-- service-src/service_busilogger.c: the business log, one file a day. Times are seconds after 1970;
-- `now` is the time that `mktime(localtime(time(NULL)))` gives, and the file that `fopen` opens is
-- known by the day in its name.
use game_server.Common.{
  ℕ, ◌+◌, ◌-◌, ◌*◌, ◌/◌, ◌^◌, ◌≡◌, ◌≢◌, refl, ap, ◌∙◌, Bool, true, false, Option, none, some, List,
  [], ◌∷◌, ltb, ◌==◌, if◌then◌else◌, arith,
}

-- `inst->handle`: NULL, the standard output, or the log file of a day.
pub data LogFile : Type 0 where
  null : LogFile
  stdout : LogFile
  day_file : ℕ → LogFile

-- `struct busilogger`, its two names apart.
pub record BusiLogger : Type 0 where
  pub handle : LogFile
  pub close : ℕ
  pub log_create_time : ℕ

-- `busilogger_create`; `garbage` is what the allocated field happens to hold.
unfoldable pub create : ℕ → BusiLogger
create garbage = record { handle = null; close = 0; log_create_time = garbage }

-- the day that `sameday` compares: the day of UTC+8
abbrev pub day : ℕ → ℕ
day t = (t + 8 * 3600) / 86400

-- `sameday`
pub sameday : ℕ → ℕ → Bool
sameday t1 t2 = day t1 == day t2

-- `busilogger_release`: the stream that `fclose` is called on.
pub release : BusiLogger → Option LogFile
release inst = if inst.close == 0 then none else some inst.handle

abbrev is_null : LogFile → Bool
is_null null = true
is_null stdout = false
is_null (day_file d) = false

module _ (date : ℕ → ℕ) where
  -- `busi_open_file`; `date` is the day that `localtime_r` and `strftime` put in the name, `opened`
  -- whether `fopen` succeeds. Its result is 0 in both cases.
  unfoldable pub open_file : Bool → ℕ → BusiLogger → ℕ × BusiLogger
  open_file opened now inst =
      (0, record inst { handle = if opened then day_file (date now) else stdout })

  -- The end of `busi_update_name`, where a file has to be opened; the result of `busi_open_file` is
  -- not looked at.
  unfoldable pub renew : Bool → ℕ → BusiLogger → LogFile → ℕ × BusiLogger
  unfolding open_file
  renew opened now inst null = (0, (open_file opened now inst).1)
  renew opened now inst stdout = (0, inst)
  renew opened now inst (day_file d) = (0, (open_file opened now inst).1)

  -- `busi_update_name`: its result and the logger.
  unfoldable pub update_name : Bool → ℕ → BusiLogger → ℕ × BusiLogger
  unfolding renew
  update_name opened now inst = elim inst.handle [
    | null ↦ renew opened now (record inst { log_create_time = now }) null
    | stdout ↦
        if sameday now inst.log_create_time
        then (0, inst)
        else renew opened now (record inst { log_create_time = now }) stdout
    | day_file d ↦
        if sameday now inst.log_create_time
        then (0, inst)
        else renew opened now (record inst { log_create_time = now }) (day_file d)
  ]

  -- `busilogger_init`: its result and the logger. The parameter is NULL, or has so many of the three
  -- fields that `sscanf` reads; -1 is its 32-bit pattern.
  unfoldable pub busilogger_init : Option ℕ → Bool → ℕ → BusiLogger → ℕ × BusiLogger
  busilogger_init none opened now inst = (1, inst)
  busilogger_init (some n) opened now inst =
      let (result, updated) = update_name opened now inst in
      let marked = if result == 2 ^ 32 - 1 then record updated { close = 1 } else updated in
      if ltb n 3 then (1, inst) else (if is_null marked.handle then 1 else 0, marked)

  -- the calls of `busilogger_cb`, each with the outcome of `fopen` and its time
  pub log_all : BusiLogger → List (Bool × ℕ) → BusiLogger
  log_all inst [] = inst
  log_all inst ((opened, now) ∷ calls) = log_all (update_name opened now inst).1 calls

  -- What `localtime` and `sameday` have to agree on: the server runs at UTC+8.
  abbrev pub SameZone : Type 0
  SameZone = (t u : ℕ) → day t ≡ day u → date t ≡ date u

  -- The file that is open, if one is, is that of the day of its creation time.
  abbrev pub IsCurrent : BusiLogger → Type 0
  IsCurrent inst = (d : ℕ) → inst.handle ≡ day_file d → d ≡ date inst.log_create_time

  -- After `busi_update_name` an open log file is the file of this very day.
  update_name-IsCurrent :
      (opened : Bool) (now : ℕ) (inst : BusiLogger)
      → SameZone
      → IsCurrent inst
      → IsCurrent (update_name opened now inst).1
        × ((d : ℕ) → (update_name opened now inst).1.handle ≡ day_file d → d ≡ date now)
  unfolding update_name sameday
  update_name-IsCurrent opened now inst zone cur = (
    λ d e. ground (arith, cur d, zone now inst.log_create_time),
    λ d e. ground (arith, cur d, zone now inst.log_create_time),
  )

  -- A call leaves `close`, opens some stream, and does not leave the standard output.
  update_name-keeps :
      (opened : Bool) (now : ℕ) (inst : BusiLogger)
      → ((update_name opened now inst).1.close ≡ inst.close)
        × (is_null (update_name opened now inst).1.handle ≡ false)
        × (inst.handle ≡ stdout → (update_name opened now inst).1.handle ≡ stdout)
  unfolding update_name sameday
  update_name-keeps opened now inst = (ground arith, ground arith, λ e. ground arith)

  log_all-keeps :
      (inst : BusiLogger) (calls : List (Bool × ℕ))
      → is_null inst.handle ≡ false
      → ((log_all inst calls).close ≡ inst.close) × (is_null (log_all inst calls).handle ≡ false)
  unfolding log_all
  log_all-keeps inst [] e = (refl, e)
  log_all-keeps inst ((opened, now) ∷ calls) e =
      let keeps = update_name-keeps opened now inst in
      let rest = log_all-keeps (update_name opened now inst).1 calls keeps.1 in
      (rest.0 ∙ keeps.0, rest.1)

  update_name_result :
      (opened : Bool) (now : ℕ) (inst : BusiLogger) → (update_name opened now inst).0 ≡ 0
  unfolding update_name
  update_name_result opened now inst = ground arith

  -- A start that succeeds does not set `close`, and there is a stream then.
  init_started :
      (parm : Option ℕ) (opened : Bool) (now : ℕ) (inst started : BusiLogger)
      → busilogger_init parm opened now inst ≡ (0, started)
      → (started.close ≡ inst.close) × (is_null started.handle ≡ false)
  unfolding busilogger_init
  init_started none opened now inst started e =
      absurd (let f : 1 ≡ 0 = ap (λ r. r.0) e in omega arith)
  init_started (some n) opened now inst started e =
      let zero_result = update_name_result opened now inst in
      let keeps = update_name-keeps opened now inst in ground (arith, zero_result, keeps.0, keeps.1)

  -- Whatever the outcomes of `fopen` in `busilogger_init` and in the log calls behind it, a logger that
  -- was created and started has a stream when it is released, and `busilogger_release` closes none.
  pub release-busilogger_init :
      (garbage : ℕ) (parm : Option ℕ) (opened : Bool) (now : ℕ) (started : BusiLogger)
      (calls : List (Bool × ℕ))
      → busilogger_init parm opened now (create garbage) ≡ (0, started)
      → ((log_all started calls).handle ≢ null) × (release (log_all started calls) ≡ none)
  unfolding release create
  release-busilogger_init garbage parm opened now started calls e =
      let start = init_started parm opened now (create garbage) started e in
      let keeps = log_all-keeps started calls start.1 in (λ z. ground arith, ground arith)

  -- A log that has fallen back to the standard output stays there, whatever `fopen` would do.
  pub stdout-log_all :
      (inst : BusiLogger) (calls : List (Bool × ℕ))
      → inst.handle ≡ stdout
      → (log_all inst calls).handle ≡ stdout
  unfolding log_all
  stdout-log_all inst [] e = e
  stdout-log_all inst ((opened, now) ∷ calls) e =
      stdout-log_all (update_name opened now inst).1 calls ((update_name-keeps opened now inst).2 e)
