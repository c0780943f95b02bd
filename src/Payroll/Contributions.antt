-- ===== src/Payroll/Contributions.antt =====
-- payroll-calculator.ts: the statutory contributions in a calculation, their lines and warnings.
use employee_attendance.Prelude.{
  ℕ, ◌+◌, ◌-◌, max, String, Bool, false, not, ◌&&◌, ◌||◌, Option, none, some, List, [], ◌∷◌, leb,
  ◌==◌, if◌then◌else◌, same_text,
}
use employee_attendance.CodeSet.{add_code}
use employee_attendance.Prelude.Int.{pos}
use employee_attendance.Statutory.{
  EpfContributionCategory, SocsoContributionCategory, StatutoryContributionResult, is_epf_exempt,
  is_socso_exempt, calculate_malaysia_statutory_contributions,
}
use employee_attendance.Payroll.{StatutoryProfileInput, PayrollLineDirection, PayrollLineCategory}
use employee_attendance.Payroll.Doubles.{Doubles}
use employee_attendance.Payroll.Lines.{PayrollLineOutput, LineInput, MetaValue, push_line}
use employee_attendance.Payroll.Warnings.{
  Warning, warning_code, epf_exempt, socso_exempt, eis_exempt, socso_wage_ceiling_reached,
  eis_wage_ceiling_reached, contribution_wages_differ_significantly_from_gross,
}

-- `MALAYSIA_STATUTORY_RULE_VERSION`
abbrev pub rule_version : String
rule_version = "MY-STAT-2025-10-01"

abbrev pub is_rule_version : Option String → Bool
is_rule_version none = false
is_rule_version (some version) = same_text version rule_version

-- The wages that each contribution is taken of.
pub record ContributionWages : Type 0 where
  pub epf : ℕ
  pub socso : ℕ
  pub eis : ℕ

abbrev contributions_of : StatutoryProfileInput → ContributionWages → StatutoryContributionResult
contributions_of p w =
    calculate_malaysia_statutory_contributions (pos w.epf) (pos w.socso) (pos w.eis) p.epf_category
      p.socso_category p.eis_eligible

-- `statutory`: null unless contributions are enabled, with a profile, at this rule version.
unfoldable pub statutory_for :
    Bool
    → Option String
    → Option StatutoryProfileInput
    → ContributionWages
    → Option (StatutoryProfileInput × StatutoryContributionResult)
statutory_for enabled version none w = none
statutory_for enabled version (some p) w =
    if enabled && is_rule_version version then some (p, contributions_of p w) else none

abbrev epf_category_text : EpfContributionCategory → String
epf_category_text EpfContributionCategory.standard_under_60 = "STANDARD_UNDER_60"
epf_category_text EpfContributionCategory.pr_or_pre_1998_60_plus = "PR_OR_PRE_1998_60_PLUS"
epf_category_text EpfContributionCategory.malaysian_60_plus = "MALAYSIAN_60_PLUS"
epf_category_text EpfContributionCategory.non_malaysian = "NON_MALAYSIAN"
epf_category_text EpfContributionCategory.exempt = "EXEMPT"

abbrev socso_category_text : SocsoContributionCategory → String
socso_category_text SocsoContributionCategory.first = "FIRST"
socso_category_text SocsoContributionCategory.second = "SECOND"
socso_category_text SocsoContributionCategory.exempt = "EXEMPT"

abbrev contribution_line :
    PayrollLineDirection
    → PayrollLineCategory
    → String
    → String
    → ℕ
    → List (String × MetaValue)
    → LineInput
contribution_line direction category code name amount metadata = record {
  direction = direction;
  category = category;
  code = code;
  name = name;
  amount_sen = amount;
  basis = rule_version;
  source_component_assignment_id = none;
  metadata = metadata;
}

abbrev wages_of : ℕ → List (String × MetaValue) → List (String × MetaValue)
wages_of wages rest = ("wagesSen", MetaValue.number wages) ∷ rest

abbrev category_of : String → List (String × MetaValue)
category_of category = ("category", MetaValue.text category) ∷ []

-- The six lines. Their basis is the rule version, which equals the constant there.
unfoldable pub contribution_lines :
    List PayrollLineOutput
    → ContributionWages
    → StatutoryProfileInput × StatutoryContributionResult
    → List PayrollLineOutput
contribution_lines lines w (p, r) =
    let epf_meta = wages_of w.epf (category_of (epf_category_text p.epf_category)) in
    let socso_meta = wages_of w.socso (category_of (socso_category_text p.socso_category)) in
    let eis_meta = wages_of w.eis [] in
    let l1 = push_line lines (
      contribution_line PayrollLineDirection.deduction PayrollLineCategory.epf "EPF_EMPLOYEE"
        "EPF employee contribution" r.epf.employee_sen epf_meta) in
    let l2 = push_line l1 (
      contribution_line PayrollLineDirection.employer_contribution PayrollLineCategory.epf
        "EPF_EMPLOYER" "EPF employer contribution" r.epf.employer_sen epf_meta) in
    let l3 = push_line l2 (
      contribution_line PayrollLineDirection.deduction PayrollLineCategory.socso "SOCSO_EMPLOYEE"
        "SOCSO employee contribution" r.socso.employee_sen socso_meta) in
    let l4 = push_line l3 (
      contribution_line PayrollLineDirection.employer_contribution PayrollLineCategory.socso
        "SOCSO_EMPLOYER" "SOCSO employer contribution" r.socso.employer_sen socso_meta) in
    let l5 = push_line l4 (
      contribution_line PayrollLineDirection.deduction PayrollLineCategory.eis "EIS_EMPLOYEE"
        "EIS employee contribution" r.eis.employee_sen eis_meta) in
    push_line l5 (
      contribution_line PayrollLineDirection.employer_contribution PayrollLineCategory.eis
        "EIS_EMPLOYER" "EIS employer contribution" r.eis.employer_sen eis_meta)

abbrev pub warn_if : Bool → Warning → List Warning → List Warning
warn_if test warning warnings = if test then add_code warning warnings else warnings

module _ (doubles : Doubles) where
  open doubles use {of_whole, times, over, rounded}

  -- `Math.abs(wagesSen - grossPaySen) >= Math.max(10_000, Math.round(grossPaySen * 0.1))`; the
  -- literal is the double nearest to the quotient.
  unfoldable pub differs_significantly : ℕ → ℕ → Bool
  differs_significantly wages gross =
      if gross == 0
      then false
      else leb (max 10_000 (rounded (times (of_whole gross) (over (of_whole 1) (of_whole 10)))))
          ((wages - gross) + (gross - wages))

  unfoldable pub contribution_warnings :
      List Warning → ContributionWages → StatutoryProfileInput → ℕ → List Warning
  contribution_warnings warnings w p gross =
      let epf = is_epf_exempt p.epf_category in
      let socso = is_socso_exempt p.socso_category in
      let differs =
        differs_significantly w.epf gross
        || (differs_significantly w.socso gross || differs_significantly w.eis gross) in
      warn_if differs contribution_wages_differ_significantly_from_gross (
        warn_if (p.eis_eligible && leb 600_000 w.eis) eis_wage_ceiling_reached (
          warn_if (not socso && leb 600_000 w.socso) socso_wage_ceiling_reached (
            warn_if (not p.eis_eligible) eis_exempt
              (warn_if socso socso_exempt (warn_if epf epf_exempt warnings)))))
