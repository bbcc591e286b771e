-- ===== src/Tests.antt =====
-- Tests of the model, and the theorems at concrete inputs.
mod SerializeTests
mod ValidateTests
mod StringTests
mod NumberTests
mod AtomTests
mod TextTests
mod OwnedTests
mod Stage1Tests
mod ScanTests
mod ConversionTests
mod Utf8Tests
mod ValueTests
