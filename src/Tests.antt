-- ===== src/Tests.antt =====
-- Runs of the model at concrete inputs, and each theorem at an input that meets its hypotheses.
mod Location
mod Calendar
mod Monthly
mod Dialogs
mod Saving
mod Clocking
mod Punching
mod AdminTabs
mod Session
mod Reporting
mod Access
mod Languages
mod Administration
mod Staff
mod Settings
mod Pages
