-- ===== src/Api/Account.antt =====
-- The forms of the account page in src/msgate/api/routes/ui.py that change the settings of alerts and
-- digests. A box that is ticked is a field that is there.
use msgate.Prelude.{
  ℕ, ◌≤◌, true, false, Option, some, ◌≡◌, Text, codes, text_eq, ltb, take, is_some, arith, refl, ap,
  sym,
}
use msgate.Prelude.Ints.{ℤ, pos, negsuc, at_least, at_most}
use msgate.Prelude.Texts.{strip}
use msgate.Ops.{OpsAlertsConfig}
use msgate.Ops.AlertMail.{given_or}
use msgate.Ops.Digest.{Calendar, day_of, hour_of}
use msgate.Ops.Digest.Schedule.{DigestState, daily_due, due_hour, due_weekday}

pub record AlertsForm : Type 0 where
  pub admin_email : Text
  pub email_alerts_enabled : Option Text

pub record DigestsForm : Type 0 where
  pub digest_daily_enabled : Option Text
  pub digest_weekly_enabled : Option Text
  pub digest_include_body : Option Text
  pub digest_subject : Text
  pub digest_hour_utc : ℤ
  pub digest_weekday : ℤ

-- `ui_account_alerts`: the settings that it saves.
unfoldable pub ui_account_alerts : AlertsForm → OpsAlertsConfig → OpsAlertsConfig
unfolding strip
ui_account_alerts form ops = record ops {
  admin_email = strip form.admin_email;
  email_alerts_enabled = is_some form.email_alerts_enabled;
}

-- `max(0, min(ceiling, value))`
abbrev pub clamp : ℕ → ℤ → ℕ
clamp ceiling value = at_least 0 (at_most ceiling value)

-- `ui_account_digests`: the settings that it saves.
unfoldable pub ui_account_digests : DigestsForm → OpsAlertsConfig → OpsAlertsConfig
unfolding strip
ui_account_digests form ops = record ops {
  digest_daily_enabled = is_some form.digest_daily_enabled;
  digest_weekly_enabled = is_some form.digest_weekly_enabled;
  digest_include_body = is_some form.digest_include_body;
  digest_subject =
      take 200 (strip (given_or (some form.digest_subject) (codes "[msgate] {period} digest")));
  digest_hour_utc = pos (clamp 23 form.digest_hour_utc);
  digest_weekday = pos (clamp 6 form.digest_weekday);
}

clamp_le : (ceiling : ℕ) (value : ℤ) → clamp ceiling value ≤ ceiling
clamp_le ceiling (pos n) = omega arith
clamp_le ceiling (negsuc n) = omega arith

clamp_twice :
    (ceiling : ℕ) (value : ℤ) → clamp ceiling (pos (clamp ceiling value)) ≡ clamp ceiling value
clamp_twice ceiling (pos n) = omega arith
clamp_twice ceiling (negsuc n) = omega arith

-- What the scheduler makes of the hour and the weekday is what the form has saved, within the day and
-- the week, whatever numbers are entered; and in the last hour of every day the daily digest is due,
-- unless its marker names the day.
pub daily_due-ui_account_digests :
    (calendar : Calendar) (form : DigestsForm) (ops : OpsAlertsConfig) (st : DigestState) (now : ℕ)
    → let ops' = ui_account_digests form ops in
      (ops'.digest_hour_utc ≡ pos (due_hour ops'))
      × (ops'.digest_weekday ≡ pos (due_weekday ops'))
      × (due_hour ops' ≤ 23)
      × (due_weekday ops' ≤ 6)
      × (hour_of now ≡ 23
          → text_eq st.last_daily (calendar.date_text (day_of now)) ≡ false
          → daily_due calendar ops' st now ≡ true)
unfolding ui_account_digests daily_due
daily_due-ui_account_digests calendar form ops st now =
    let hour = clamp_twice 23 form.digest_hour_utc in
    let weekday = clamp_twice 6 form.digest_weekday in
    let bound = clamp_le 23 form.digest_hour_utc in
    (
      ap pos (sym hour),
      ap pos (sym weekday),
      omega (arith, bound, hour),
      omega (arith, clamp_le 6 form.digest_weekday, weekday),
      λ e f.
          let low : ltb (hour_of now) (due_hour (ui_account_digests form ops)) ≡ false =
            ground (arith, e, hour, bound) in
          rw (low, daily_due) (rw f refl),
    )
