-- ===== src/Tests.antt =====
-- Runs of the definitions on concrete inputs, and the theorems at inputs that meet their hypotheses.
mod SseTests
mod LogsTests
mod DialogTests
mod FilesTests
mod ApiTests
mod PageTests
mod ServerTests
mod AccountTests
mod AccessTests
mod StatusTests
mod TerminalTests
mod TableTests
mod HookTests
mod SettingsTests
mod ButtonTests
mod WikiTests
mod EditorTests
